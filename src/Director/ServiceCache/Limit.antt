-- ===== src/Director/ServiceCache/Limit.antt =====
-- Which entries the size limit of the cache of opted-in services leaves.
use mathlib.Core.List.{Perm, append-nil}
use mathlib.Core.List.Perm
use mathlib.Core.Path.{subst}
use zen_lead.Base.{
  ℕ, zero, suc, ◌≤◌, ◌≡◌, refl, sym, ap, inl, inr, true, List, [], ◌∷◌, ◌++◌, All, take, drop,
  length, arith, Bool-cases,
}
use zen_lead.Base.Int.{pos, pos_part, is_pos, ltz}
use zen_lead.Base.Sort.{insert_sorted, sort_slice, sort_slice-perm}
use zen_lead.Director.Reconciler.{Reconciler, CachedService}
use zen_lead.Director.ServiceCache.{accessed_after, limit_entries}
use zen_lead.Director.ServiceCache.Requests.{take-length}

-- None of the entries has been accessed later.
abbrev Latest : CachedService → List CachedService → Type 0
Latest c cs = All (λ d. d.last_access ≤ c.last_access) cs

-- The entries come by access time, the latest first.
abbrev ByAccess : List CachedService → Type 0
ByAccess [] = Unit
ByAccess (c ∷ cs) = Latest c cs × ByAccess cs

Latest-trans :
    (a b : CachedService) (cs : List CachedService)
    → b.last_access ≤ a.last_access
    → Latest b cs
    → Latest a cs
Latest-trans a b [] h l = tt
Latest-trans a b (c ∷ cs) h l = (omega (arith, l.0), Latest-trans a b cs h l.1)

Latest-insert_sorted :
    (a x : CachedService) (cs : List CachedService)
    → x.last_access ≤ a.last_access
    → Latest a cs
    → Latest a (insert_sorted accessed_after x cs)
unfolding insert_sorted
Latest-insert_sorted a x [] h l = (h, tt)
Latest-insert_sorted a x (c ∷ cs) h l = elim (Bool-cases (accessed_after x c)) [
  | inl e ↦ rw e (h, l)
  | inr e ↦ rw e (l.0, Latest-insert_sorted a x cs h l.1)
]

insert_sorted-ByAccess :
    (x : CachedService) (cs : List CachedService)
    → ByAccess cs
    → ByAccess (insert_sorted accessed_after x cs)
unfolding insert_sorted
insert_sorted-ByAccess x [] h = (tt, tt)
insert_sorted-ByAccess x (c ∷ cs) h = elim (Bool-cases (accessed_after x c)) [
  | inl e ↦
      let le : c.last_access ≤ x.last_access = ground arith in
      rw e ((le, Latest-trans x c cs le h.0), h)
  | inr e ↦ rw e (Latest-insert_sorted c x cs (ground arith) h.0, insert_sorted-ByAccess x cs h.1)
]

sort_slice-ByAccess : (cs : List CachedService) → ByAccess (sort_slice accessed_after cs)
unfolding sort_slice
sort_slice-ByAccess [] = tt
sort_slice-ByAccess (c ∷ cs) =
    insert_sorted-ByAccess c (sort_slice accessed_after cs) (sort_slice-ByAccess cs)

-- Each entry of the first list was accessed no earlier than each of the second.
abbrev pub NoEarlier : List CachedService → List CachedService → Type 0
NoEarlier kept dropped = All (λ c. Latest c dropped) kept

Latest-drop :
    (n : ℕ) (c : CachedService) (cs : List CachedService) → Latest c cs → Latest c (drop n cs)
Latest-drop zero c cs h = h
Latest-drop (suc n) c [] h = tt
Latest-drop (suc n) c (d ∷ cs) h = Latest-drop n c cs h.1

take-NoEarlier-drop :
    (n : ℕ) (cs : List CachedService) → ByAccess cs → NoEarlier (take n cs) (drop n cs)
take-NoEarlier-drop zero cs h = tt
take-NoEarlier-drop (suc n) [] h = tt
take-NoEarlier-drop (suc n) (c ∷ cs) h = (Latest-drop n c cs h.0, take-NoEarlier-drop n cs h.1)

take-drop : {A : Type 0} (n : ℕ) (xs : List A) → take n xs ++ drop n xs ≡ xs
take-drop zero xs = refl
take-drop (suc n) [] = refl
take-drop (suc n) (x ∷ xs) = ap (λ l. x ∷ l) (take-drop n xs)

All-nil : {A : Type 0} (P : A → Type 0) (xs : List A) → ((x : A) → P x) → All P xs
All-nil P [] h = tt
All-nil P (x ∷ xs) h = (h x, All-nil P xs h)

module _ ⦃r : Reconciler⦄ where
  -- What the limit keeps and what it drops are together the entries that were there. If the limit is
  -- positive, no more are kept than it says, nothing is dropped where there are no more, and an entry
  -- that is kept was accessed no earlier than one that is dropped.
  pub limit_entries-newest :
      (cached : List CachedService)
      → is_pos r.max_cache_size_per_namespace ≡ true
      → (dropped : List CachedService) × Perm (limit_entries cached ++ dropped) cached
        × (length (limit_entries cached) ≤ pos_part r.max_cache_size_per_namespace)
        × (length cached ≤ pos_part r.max_cache_size_per_namespace → dropped ≡ [])
        × NoEarlier (limit_entries cached) dropped
  unfolding limit_entries
  limit_entries-newest cached h =
      let n = pos_part r.max_cache_size_per_namespace in
      let sorted = sort_slice accessed_after cached in
      elim (Bool-cases (ltz r.max_cache_size_per_namespace (pos (length cached)))) [
        | inl e ↦ (
          drop n sorted,
          rw (h, e)
              (subst (λ l. Perm l cached) (sym (take-drop n sorted))
                (sort_slice-perm accessed_after cached)),
          rw (h, e) (take-length n sorted),
          λ few. absurd (ground (arith, few, e, h)),
          rw (h, e) (take-NoEarlier-drop n sorted (sort_slice-ByAccess cached)),
        )
        | inr e ↦ (
          [],
          rw (h, e) (subst (λ l. Perm l cached) (sym (append-nil cached)) (Perm.refl cached)),
          rw (h, e) (ground (arith, h, e)),
          λ few. refl,
          rw (h, e) (All-nil _ cached λ c. tt),
        )
      ]
