-- ===== src/Director/Select/Earliest.antt =====
-- What the fallback of selectLeaderPod chooses.
use mathlib.Core.Path.{subst}
use zen_lead.Base.{
  ℕ, ◌+◌, ◌≤◌, ◌<◌, ◌≡◌, refl, sym, ap, ◌∙◌, ◌↔◌, inl, inr, Bool, true, false, some, List, [], ◌∷◌,
  arith, keep, All, In, All-In, In-keep, keep-In, Option-cases,
}
use zen_lead.Base.Text.{str_ltb_irrefl, str_ltb_trans, str_ltb_connected}
use zen_lead.Base.Sort.{sort_slice, sort_slice-In, sort_slice-StartsLeast, StartsLeast}
use zen_lead.Base.Int.{ℤ, pos, elapsed_iff}
use zen_lead.Kube.Objects.{Pod}
use zen_lead.Director.Pods.{is_pod_ready, get_pod_ready_since}
use zen_lead.Director.Select.{earlier, is_candidate, first, earliest_ready}

earlier_irrefl : (p : Pod) → earlier p p ≡ false
unfolding earlier
earlier_irrefl p = ground (arith, str_ltb_irrefl p.name)

earlier_trans : (p q t : Pod) → earlier p q ≡ true → earlier q t ≡ true → earlier p t ≡ true
unfolding earlier
earlier_trans p q t h k = ground (arith, str_ltb_trans p.name q.name t.name)

-- Of two pods with different names one is earlier.
pub earlier_connected : (p q : Pod) → earlier p q ≡ false → earlier q p ≡ false → p.name ≡ q.name
unfolding earlier
earlier_connected p q h k = ground (arith, str_ltb_connected p.name q.name)

-- A pod passes the test of the loop exactly if it is Ready and, where a minimum is set, has been
-- so for at least that long.
pub is_candidate_iff :
    (d time : ℕ) (p : Pod)
    → 0 < d
    → (is_candidate (pos d) time p ≡ true) ↔ (
        (is_pod_ready p ≡ true)
        × ((since : ℕ) × (get_pod_ready_since p ≡ some since) × (since + d ≤ time)))
unfolding is_candidate
is_candidate_iff d time p h = elim (Option-cases (get_pod_ready_since p)) [
  | inl e ↦ (λ k. absurd (ground arith), λ k. absurd (ground (arith, k.1.1)))
  | inr (t, e) ↦ (
    λ k. (ground arith, (t, e, ground (arith, elapsed_iff time t d))),
    λ k. ground (arith, k.1.1, k.1.2, elapsed_iff time t d),
  )
]

StartsLeast-first :
    (less : Pod → Pod → Bool) (xs : List Pod) (p q : Pod)
    → StartsLeast less xs
    → first xs ≡ some p
    → In q xs
    → less q p ≡ false
StartsLeast-first less [] p q h e m = absurd m
StartsLeast-first less (x ∷ xs) p q h e m =
    All-In (λ y. less y p ≡ false) (x ∷ xs) q
      (subst (λ z. All (λ y. less y z ≡ false) (x ∷ xs)) (ground arith) h) m

first-In : (xs : List Pod) (p : Pod) → first xs ≡ some p → In p xs
first-In [] p e = cc
first-In (x ∷ xs) p e = inl (ground arith)

-- The fallback's leader is one of the pods, passes the test, and no pod that passes it was
-- created earlier, or at the same time with a smaller name.
pub earliest_ready_sound :
    (min : ℤ) (time : ℕ) (pods : List Pod) (p : Pod)
    → earliest_ready min time pods ≡ some p
    → In p pods
      × (is_candidate min time p ≡ true)
      × ((q : Pod) → In q pods → is_candidate min time q ≡ true → earlier q p ≡ false)
unfolding earliest_ready
earliest_ready_sound min time pods p h =
    let xs = keep (is_candidate min time) pods in
    let m =
      In-keep (is_candidate min time) pods p
        ((sort_slice-In earlier p xs).0 (first-In (sort_slice earlier xs) p h)) in
    (
      m.0,
      m.1,
      λ q k c.
          StartsLeast-first earlier (sort_slice earlier xs) p q
            (sort_slice-StartsLeast earlier earlier_irrefl earlier_trans xs) h
            ((sort_slice-In earlier q xs).1 (keep-In (is_candidate min time) pods q k c)),
    )

first-some : (xs : List Pod) (q : Pod) → In q xs → (p : Pod) × (first xs ≡ some p)
first-some [] q m = absurd m
first-some (x ∷ xs) q m = (x, refl)

-- Where some pod passes the test, a leader is chosen.
pub earliest_ready_complete :
    (min : ℤ) (time : ℕ) (pods : List Pod) (q : Pod)
    → In q pods
    → is_candidate min time q ≡ true
    → (p : Pod) × (earliest_ready min time pods ≡ some p)
unfolding earliest_ready
earliest_ready_complete min time pods q m c =
    first-some (sort_slice earlier (keep (is_candidate min time) pods)) q
      ((sort_slice-In earlier q _).1 (keep-In (is_candidate min time) pods q m c))

-- The choice depends only on which pods there are, not on the order in which they are listed, as
-- long as no two of them share a name.
pub earliest_ready_order :
    (min : ℤ) (time : ℕ) (xs ys : List Pod)
    → ((p : Pod) → In p xs ↔ In p ys)
    → ((p q : Pod) → In p xs → In q xs → p.name ≡ q.name → p ≡ q)
    → earliest_ready min time xs ≡ earliest_ready min time ys
earliest_ready_order min time xs ys same distinct =
    elim (Option-cases (earliest_ready min time xs)) [
      | inl e ↦ elim (Option-cases (earliest_ready min time ys)) [
        | inl f ↦ e ∙ sym f
        | inr (q, f) ↦
            let t = earliest_ready_sound min time ys q f in
            let u = earliest_ready_complete min time xs q ((same q).1 t.0) t.1 in cc (u.1)
      ]
      | inr (p, e) ↦
          let t = earliest_ready_sound min time xs p e in
          let u = earliest_ready_complete min time ys p ((same p).0 t.0) t.1 in
          let v = earliest_ready_sound min time ys u.0 u.1 in
          e
          ∙ ap some (
              distinct p u.0 t.0 ((same u.0).1 v.0) (
                earlier_connected p u.0 (v.2 p ((same p).0 t.0) t.1)
                  (t.2 u.0 ((same u.0).1 v.0) v.1)))
          ∙ sym u.1
    ]
