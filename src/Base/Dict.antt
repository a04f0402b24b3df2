-- ===== src/Base/Dict.antt =====
-- Go maps with string keys, as association lists. A nil map reads as an empty one. The program's
-- loops over a map visit every entry and build another map, so the order of entries is not modelled.
use mathlib.Core.Path.{◌≡◌, refl, subst}
use mathlib.Core.Bool.{Bool}
use mathlib.Core.Option
use mathlib.Core.Option.{Option, none, some}
use mathlib.Core.List.{List, [], ◌∷◌}
use Prim.Native.String.{String}
use native.Mathlib.Omega.{arith}
use text.Mathlib.Text.{◌==◌ as str_eq}
use text.Mathlib.TextEquality.{eq_iff}
use zen_lead.Base.Tests.{if◌then◌else◌, Bool-cases}
use text.Mathlib.TextPositions.{eq_refl}
use mathlib.Core.Logic.{inl, inr}

abbrev pub Dict {ℓ} : Type ℓ → Type ℓ
Dict V = List (String × V)

module _ {ℓ} {V : Type ℓ} where
  -- `v, ok := m[k]`
  unfoldable pub lookup : String → Dict V → Option V
  lookup k [] = none
  lookup k ((j, v) ∷ m) = if str_eq j k then some v else lookup k m

  -- `delete(m, k)`
  unfoldable pub erase : String → Dict V → Dict V
  erase k [] = []
  erase k ((j, w) ∷ m) = let rest = erase k m in if str_eq j k then rest else (j, w) ∷ rest

  -- `m[k] = v`, in the place of the entry that is there
  unfoldable pub insert : String → V → Dict V → Dict V
  insert set v [] = (set, v) ∷ []
  insert set v ((key, old) ∷ entries) =
      let rest = insert set v entries in
      if str_eq key set then (set, v) ∷ entries else (key, old) ∷ rest

  -- The entries that a test passes.
  unfoldable pub filter : (String → V → Bool) → Dict V → Dict V
  filter p [] = []
  filter p ((j, w) ∷ m) = let rest = filter p m in if p j w then (j, w) ∷ rest else rest

  pub lookup-insert :
      (set read : String) (v : V) (m : Dict V)
      → lookup read (insert set v m) ≡ (if str_eq set read then some v else lookup read m)
  unfolding lookup insert
  lookup-insert set read v [] = refl
  lookup-insert set read v ((key, old) ∷ entries) =
      let rest = lookup-insert set read v entries in
      ground (arith, rest, eq_iff key set, eq_iff key read, eq_iff set read)

  pub lookup-erase :
      (k j : String) (m : Dict V) → lookup j (erase k m) ≡ (if str_eq k j then none else lookup j m)
  unfolding lookup erase
  lookup-erase k j [] = ground arith
  lookup-erase k j ((i, w) ∷ m) =
      ground (arith, eq_iff k j, eq_iff i k, eq_iff i j, lookup-erase k j m)

  -- A filter on keys alone keeps what is stored under a key that passes, and drops the rest.
  pub lookup-filter :
      (p : String → Bool) (j : String) (m : Dict V)
      → lookup j (filter (λ k v. p k) m) ≡ (if p j then lookup j m else none)
  unfolding lookup filter
  lookup-filter p j [] = ground arith
  lookup-filter p j ((i, w) ∷ m) = elim (Bool-cases (str_eq i j)) [
    | inl e ↦
        subst
          (λ k.
            lookup k (filter (λ k v. p k) ((i, w) ∷ m))
            ≡ (if p k then lookup k ((i, w) ∷ m) else none))
          ((eq_iff i j).0 e) (ground (arith, eq_refl i, lookup-filter p i m))
    | inr e ↦ ground (arith, lookup-filter p j m)
  ]

-- `m[k]` of a map of strings: the empty string where the key is missing.
abbrev pub get : String → Dict String → String
get k m = Option.get_or (lookup k m) ""
