-- ===== src/Base/Sort.antt =====
-- sort.Slice by a Boolean `less`. Go leaves the algorithm open and does not keep equal elements in
-- order, so nothing may depend on more than the members and a least first one.
use mathlib.Core.Path.{◌≡◌}
use mathlib.Core.Logic.{◌↔◌, inl, inr}
use mathlib.Core.Bool.{Bool, true, false}
use mathlib.Core.List.{List, [], ◌∷◌, Perm}
use mathlib.Core.List.Perm
use native.Mathlib.Omega.{arith}
use zen_lead.Base.Tests.{if◌then◌else◌, Bool-cases}
use zen_lead.Base.Lists.{All, In}

module _ {A : Type 0} (less : A → A → Bool) where
  unfoldable pub insert_sorted : A → List A → List A
  insert_sorted x [] = x ∷ []
  insert_sorted x (y ∷ ys) = if less x y then x ∷ y ∷ ys else y ∷ insert_sorted x ys

  unfoldable pub sort_slice : List A → List A
  unfolding insert_sorted
  sort_slice [] = []
  sort_slice (x ∷ xs) = insert_sorted x (sort_slice xs)

  insert_sorted-In : (x y : A) (ys : List A) → In y (x ∷ ys) → In y (insert_sorted x ys)
  unfolding insert_sorted
  insert_sorted-In x y [] h = h
  insert_sorted-In x y (z ∷ zs) h = elim (Bool-cases (less x z)) [
    | inl e ↦ rw e h
    | inr e ↦ rw e (elim h [
      | inl p ↦ inr (insert_sorted-In x y zs (inl p))
      | inr q ↦ elim q [ inl p ↦ inl p | inr m ↦ inr (insert_sorted-In x y zs (inr m)) ]
    ])
  ]

  In-insert_sorted : (x y : A) (ys : List A) → In y (insert_sorted x ys) → In y (x ∷ ys)
  unfolding insert_sorted
  In-insert_sorted x y [] h = h
  In-insert_sorted x y (z ∷ zs) h = elim (Bool-cases (less x z)) [
    | inl e ↦ rw e at h
    | inr e ↦ elim (rw e at h) [
      | inl p ↦ inr (inl p)
      | inr m ↦ elim (In-insert_sorted x y zs m) [ inl p ↦ inl p | inr q ↦ inr (inr q) ]
    ]
  ]

  -- Sorting keeps the members.
  pub sort_slice-In : (y : A) (xs : List A) → In y (sort_slice xs) ↔ In y xs
  unfolding sort_slice
  sort_slice-In y [] = (λ h. h, λ h. h)
  sort_slice-In y (x ∷ xs) = (
    λ h. elim (In-insert_sorted x y (sort_slice xs) h) [
      | inl p ↦ inl p
      | inr m ↦ inr ((sort_slice-In y xs).0 m)
    ],
    λ h.
        insert_sorted-In x y (sort_slice xs)
          (elim h [ inl p ↦ inl p | inr m ↦ inr ((sort_slice-In y xs).1 m) ]),
  )

  -- The first of a list has none of its members below it.
  abbrev pub StartsLeast : List A → Type 0
  StartsLeast [] = Unit
  StartsLeast (x ∷ xs) = All (λ y. less y x ≡ false) (x ∷ xs)

  module _ (irreflexive : (x : A) → less x x ≡ false)
      (transitive : (x y z : A) → less x y ≡ true → less y z ≡ true → less x z ≡ true) where
    All-below :
        (x y : A) (zs : List A)
        → less x y ≡ true
        → All (λ z. less z y ≡ false) zs
        → All (λ z. less z x ≡ false) zs
    All-below x y [] h all = tt
    All-below x y (z ∷ zs) h all = (ground (arith, transitive z x y), All-below x y zs h all.1)

    All-insert_sorted :
        (P : A → Type 0) (x : A) (ys : List A) → P x → All P ys → All P (insert_sorted x ys)
    unfolding insert_sorted
    All-insert_sorted P x [] px h = (px, h)
    All-insert_sorted P x (y ∷ ys) px h = elim (Bool-cases (less x y)) [
      | inl e ↦ rw e (px, h)
      | inr e ↦ rw e (h.0, All-insert_sorted P x ys px h.1)
    ]

    insert_sorted-StartsLeast :
        (x : A) (ys : List A) → StartsLeast ys → StartsLeast (insert_sorted x ys)
    unfolding insert_sorted
    insert_sorted-StartsLeast x [] h = (irreflexive x, tt)
    insert_sorted-StartsLeast x (y ∷ ys) h = elim (Bool-cases (less x y)) [
      | inl e ↦ rw e (irreflexive x, All-below x y (y ∷ ys) e h)
      | inr e ↦ rw e (h.0, All-insert_sorted (λ z. less z y ≡ false) x ys e h.1)
    ]

    pub sort_slice-StartsLeast : (xs : List A) → StartsLeast (sort_slice xs)
    unfolding sort_slice
    sort_slice-StartsLeast [] = tt
    sort_slice-StartsLeast (x ∷ xs) =
        insert_sorted-StartsLeast x (sort_slice xs) (sort_slice-StartsLeast xs)

-- Sorting rearranges.
module _ {A : Type 0} (less : A → A → Bool) where
  insert_sorted-perm : (x : A) (ys : List A) → Perm (insert_sorted less x ys) (x ∷ ys)
  unfolding insert_sorted
  insert_sorted-perm x [] = Perm.refl (x ∷ [])
  insert_sorted-perm x (y ∷ ys) = elim (Bool-cases (less x y)) [
    | inl e ↦ rw e (Perm.refl (x ∷ y ∷ ys))
    | inr e ↦ rw e (Perm.trans (Perm.cons y (insert_sorted-perm x ys)) (Perm.swap x y ys))
  ]

  pub sort_slice-perm : (xs : List A) → Perm (sort_slice less xs) xs
  unfolding sort_slice
  sort_slice-perm [] = Perm.refl []
  sort_slice-perm (x ∷ xs) =
      Perm.trans (insert_sorted-perm x (sort_slice less xs)) (Perm.cons x (sort_slice-perm xs))
