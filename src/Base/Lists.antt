-- ===== src/Base/Lists.antt =====
-- Lists over the native numbers, predicates on lists by recursion, and a sort by a Boolean order.
use Prim.Native.Nat.{ℕ, zero, suc}
use mathlib.Core.Path.{◌≡◌, sym, subst}
use mathlib.Core.Logic.{◌⊎◌, inl, inr}
use mathlib.Core.Bool.{Bool, true}
use mathlib.Core.List.{List, [], ◌∷◌}
use zen_lead.Base.Tests.{if◌then◌else◌, Bool-cases}

module _ {ℓ} {A : Type ℓ} where
  abbrev pub length : List A → ℕ
  length [] = 0
  length (x ∷ xs) = suc (length xs)

  abbrev pub take : ℕ → List A → List A
  take zero xs = []
  take (suc n) [] = []
  take (suc n) (x ∷ xs) = x ∷ take n xs

  -- `xs[n:]`
  abbrev pub drop : ℕ → List A → List A
  drop zero xs = xs
  drop (suc n) [] = []
  drop (suc n) (x ∷ xs) = drop n xs

  -- The elements that pass a Boolean test, in order.
  abbrev pub keep : (A → Bool) → List A → List A
  keep p [] = []
  keep p (x ∷ xs) = let rest = keep p xs in if p x then x ∷ rest else rest

module _ {ℓ} {A : Type ℓ} where
  abbrev pub All : (A → Type 0) → List A → Type 0
  All P [] = Unit
  All P (x ∷ xs) = P x × All P xs

  abbrev pub Any : (A → Type 0) → List A → Type 0
  Any P [] = ⊥
  Any P (x ∷ xs) = P x ⊎ Any P xs

-- `x` stands in the list.
abbrev pub In : {A : Type 0} → A → List A → Type 0
In x xs = Any (λ y. y ≡ x) xs

module _ {A : Type 0} where
  pub All-In : (P : A → Type 0) (xs : List A) (x : A) → All P xs → In x xs → P x
  All-In P [] x h m = absurd m
  All-In P (y ∷ ys) x h m = elim m [ inl e ↦ subst P e h.0 | inr r ↦ All-In P ys x h.1 r ]

  pub In-keep : (p : A → Bool) (xs : List A) (x : A) → In x (keep p xs) → In x xs × (p x ≡ true)
  In-keep p [] x m = absurd m
  In-keep p (y ∷ ys) x m = elim (Bool-cases (p y)) [
    | inl e ↦ elim (rw e at m) [
      | inl q ↦ (inl q, subst (λ z. p z ≡ true) q e)
      | inr r ↦ let (a, b) = In-keep p ys x r in (inr a, b)
    ]
    | inr e ↦ let (a, b) = In-keep p ys x (rw e at m) in (inr a, b)
  ]

  pub keep-In : (p : A → Bool) (xs : List A) (x : A) → In x xs → p x ≡ true → In x (keep p xs)
  keep-In p [] x m h = absurd m
  keep-In p (y ∷ ys) x (inl e) h = rw (subst (λ z. p z ≡ true) (sym e) h) (inl e)
  keep-In p (y ∷ ys) x (inr r) h = elim (Bool-cases (p y)) [
    | inl e ↦ rw e (inr (keep-In p ys x r h))
    | inr e ↦ rw e (keep-In p ys x r h)
  ]
