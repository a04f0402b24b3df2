-- ===== src/Base/Int.antt =====
-- Signed numbers: int32 ports, and durations in nanoseconds.
use Prim.Native.Nat.{ℕ, suc, ◌+◌, ◌-◌, ◌≤◌}
use mathlib.Core.Path.{◌≡◌}
use mathlib.Core.Logic.{◌↔◌}
use mathlib.Core.Bool.{Bool, false}
use native.Mathlib.Omega.{arith}
use zen_lead.Base.Tests.{ltb, leb, if◌then◌else◌}

-- `negsuc n` is -(n + 1).
pub data ℤ : Type 0 where
  pos : ℕ → ℤ
  negsuc : ℕ → ℤ

abbrev pub pos_part : ℤ → ℕ
pos_part (pos n) = n
pos_part (negsuc n) = 0

abbrev pub neg_part : ℤ → ℕ
neg_part (pos n) = 0
neg_part (negsuc n) = suc n

-- a - b, as an integer.
abbrev pub sub_ℕ : ℕ → ℕ → ℤ
sub_ℕ a b = if leb b a then pos (a - b) else negsuc (b - a - 1)

-- `a < b`
abbrev pub ltz : ℤ → ℤ → Bool
ltz a b = ltb (pos_part a + neg_part b) (pos_part b + neg_part a)

-- `0 < a`
abbrev pub is_pos : ℤ → Bool
is_pos a = ltz (pos 0) a

-- An elapsed time is at least a duration exactly if the duration, added to the start, is not past the end.
pub elapsed_iff : (end start d : ℕ) → (ltz (sub_ℕ end start) (pos d) ≡ false) ↔ (start + d ≤ end)
elapsed_iff end start d = ground arith
