-- ===== src/Base/Text.antt =====
-- Go's strings: concatenation, and the order `<`, which compares byte by byte. UTF-8 keeps the
-- order of code points, so the order is lexicographic on these.
use Prim.Native.Nat.{ℕ, zero, suc, ◌/◌, ◌%◌, compare, Ordering}
use Prim.Native.Char.{code}
use Prim.Native.String.{String, [], ◌∷◌, ◌++◌}
use mathlib.Core.Path.{◌≡◌, refl, ap₂, subst}
use mathlib.Core.Logic.{inl, inr}
use mathlib.Core.Bool.{Bool, true, false}
use zen_lead.Base.Tests.{◌==◌, ltb, if◌then◌else◌, Bool-cases}
use native.Mathlib.Omega.{arith}
use text.Mathlib.TextEquality.{Char-path, eq_iff}
use text.Mathlib.Text.{◌==◌ as str_eq}
use text.Mathlib.TextLemmas.{cons-append}

abbrev pub append : String → String → String
append s t = s ++ t

by_code : Ordering → Bool → Bool
by_code Ordering.lt rest = true
by_code Ordering.eq rest = rest
by_code Ordering.gt rest = false

-- `s < t` of two Go strings.
unfoldable pub str_ltb : String → String → Bool
unfolding by_code
str_ltb [] [] = false
str_ltb [] (d ∷ t) = true
str_ltb (c ∷ s) [] = false
str_ltb (c ∷ s) (d ∷ t) = by_code (compare (code c) (code d)) (str_ltb s t)

pub str_ltb_irrefl : (s : String) → str_ltb s s ≡ false
unfolding str_ltb
str_ltb_irrefl [] = refl
str_ltb_irrefl (c ∷ s) = ground (arith, str_ltb_irrefl s)

pub str_ltb_trans : (s t u : String) → str_ltb s t ≡ true → str_ltb t u ≡ true → str_ltb s u ≡ true
unfolding str_ltb
str_ltb_trans [] [] u h k = cc
str_ltb_trans [] (d ∷ t) [] h k = cc
str_ltb_trans [] (d ∷ t) (e ∷ u) h k = refl
str_ltb_trans (c ∷ s) [] u h k = cc
str_ltb_trans (c ∷ s) (d ∷ t) [] h k = cc
str_ltb_trans (c ∷ s) (d ∷ t) (e ∷ u) h k = ground (arith, str_ltb_trans s t u)

-- Neither of two texts is below the other only if they are equal.
pub str_ltb_connected : (s t : String) → str_ltb s t ≡ false → str_ltb t s ≡ false → s ≡ t
unfolding str_ltb
str_ltb_connected [] [] h k = refl
str_ltb_connected [] (d ∷ t) h k = cc
str_ltb_connected (c ∷ s) [] h k = cc
str_ltb_connected (c ∷ s) (d ∷ t) h k =
    ap₂ ◌∷◌ (Char-path c d (ground arith)) (str_ltb_connected s t (ground arith) (ground arith))

digit : ℕ → String
digit d =
    if d == 0
    then "0"
    else if d == 1
    then "1"
    else if d == 2
    then "2"
    else if d == 3
    then "3"
    else if d == 4
    then "4"
    else if d == 5
    then "5"
    else if d == 6
    then "6"
    else if d == 7
    then "7"
    else if d == 8
    then "8"
    else "9"

-- The decimal digits of a number, before what stands behind them; the fuel bounds their count.
decimal_from : ℕ → ℕ → String → String
decimal_from zero n tail = tail
decimal_from (suc f) n tail =
    let rest = decimal_from f (n / 10) (append (digit (n % 10)) tail) in
    if ltb n 10 then append (digit n) tail else rest

-- `fmt.Sprintf("%d", n)`
unfoldable pub decimal : ℕ → String
unfolding decimal_from digit
decimal n = decimal_from (suc n) n ""

decimal_test : decimal 4071 ≡ "4071"
unfolding decimal
decimal_test = refl

-- A number is not a word.
starts_with_digit : String → Bool
starts_with_digit [] = false
starts_with_digit (c ∷ s) = ltb (code c) 58

either_digit :
    (b : Bool) (s t : String)
    → starts_with_digit s ≡ true
    → starts_with_digit t ≡ true
    → starts_with_digit (if b then s else t) ≡ true
either_digit true s t h k = h
either_digit false s t h k = k

starts_with_digit-digit : (d : ℕ) → starts_with_digit (digit d) ≡ true
unfolding starts_with_digit digit
starts_with_digit-digit d = either_digit (d == 0) "0" _ refl (
    either_digit (d == 1) "1" _ refl (
      either_digit (d == 2) "2" _ refl (
        either_digit (d == 3) "3" _ refl (
          either_digit (d == 4) "4" _ refl (
            either_digit (d == 5) "5" _ refl (
              either_digit (d == 6) "6" _ refl
                (either_digit (d == 7) "7" _ refl (either_digit (d == 8) "8" "9" refl refl))))))))

append_starts :
    (s tail : String) → starts_with_digit s ≡ true → starts_with_digit (append s tail) ≡ true
unfolding starts_with_digit
append_starts [] tail h = cc
append_starts (c ∷ s) tail h = rw (cons-append c s tail) h

append-digit : (d : ℕ) (tail : String) → starts_with_digit (append (digit d) tail) ≡ true
append-digit d tail = append_starts (digit d) tail (starts_with_digit-digit d)

decimal_from_digit :
    (f n : ℕ) (tail : String)
    → starts_with_digit tail ≡ true
    → starts_with_digit (decimal_from f n tail) ≡ true
unfolding decimal_from
decimal_from_digit zero n tail h = h
decimal_from_digit (suc f) n tail h = ground (
  arith,
  append-digit n tail,
  decimal_from_digit f (n / 10) (append (digit (n % 10)) tail) (append-digit (n % 10) tail),
)

decimal_digit : (n : ℕ) → starts_with_digit (decimal n) ≡ true
unfolding decimal decimal_from
decimal_digit n = ground (
  arith,
  append-digit n "",
  decimal_from_digit n (n / 10) (append (digit (n % 10)) "") (append-digit (n % 10) ""),
)

pub decimal-max : (n : ℕ) → str_eq (decimal n) "max" ≡ false
unfolding starts_with_digit
decimal-max n = elim (Bool-cases (str_eq (decimal n) "max")) [
  | inl e ↦
      absurd
        (no_digit (subst (λ s. starts_with_digit s ≡ true) ((eq_iff _ _).0 e) (decimal_digit n)))
  | inr e ↦ e
]
  where
    no_digit : starts_with_digit "max" ≡ true → ⊥
    no_digit h = cc
