-- ===== src/Director/ServiceCache/Requests.antt =====
-- The refresh of the cache from a list of services, and the requests for a pod.
use mathlib.Core.Path.{subst}
use zen_lead.Base.{
  ℕ, zero, suc, ◌≤◌, ◌≡◌, refl, sym, ap, ◌∙◌, ◌↔◌, inl, inr, true, String, List, [], ◌∷◌, map, keep,
  arith, Bool-cases, In, length, take,
}
use zen_lead.Base.Int.{pos, is_pos, ltz, pos_part}
use zen_lead.Base.Sort.{sort_slice, sort_slice-In}
use zen_lead.Base.Dict.{Dict}
use zen_lead.Kube.Objects.{Key, Pod, Service, a_pod}
use zen_lead.Director.Reconciler.{Reconciler, CachedService, State, ◌>>=◌}
use zen_lead.Director.Calls.{now}
use zen_lead.Director.ServiceCache.{
  is_cacheable, cached_in, make_entry, cache_entries, accessed_after, limit_entries,
  matching_requests, if_still_empty, cache_miss, cache_hit, map_pod_to_service,
}

-- An entry without its access time.
abbrev pub Entry : Type 0
Entry = String × Dict String

abbrev pub entry_of : CachedService → Entry
entry_of c = (c.name, c.selector)

abbrev pub entry_for : Service → Entry
entry_for svc = (svc.name, svc.selector)

pub take-length : {A : Type 0} (n : ℕ) (xs : List A) → length (take n xs) ≤ n
take-length zero xs = omega arith
take-length (suc n) [] = omega arith
take-length (suc n) (x ∷ xs) = omega (arith, take-length n xs)

take-In : {A : Type 0} (n : ℕ) (xs : List A) (x : A) → In x (take n xs) → In x xs
take-In zero xs x m = absurd m
take-In (suc n) [] x m = absurd m
take-In (suc n) (y ∷ ys) x (inl e) = inl e
take-In (suc n) (y ∷ ys) x (inr m) = inr (take-In n ys x m)

module _ ⦃r : Reconciler⦄ where
  -- A refresh makes an entry, with its selector, of each listed service that is opted in and has
  -- a selector, and of no other.
  pub cache_entries-keep :
      (services : List Service) (s : State)
      → map entry_of (cache_entries services s).0 ≡ map entry_for (keep is_cacheable services)
  unfolding cache_entries make_entry ◌>>=◌ now
  cache_entries-keep [] s = refl
  cache_entries-keep (svc ∷ rest) s = elim (Bool-cases (is_cacheable svc)) [
    | inl e ↦ rw e (ap (λ xs. entry_for svc ∷ xs) (cache_entries-keep rest _))
    | inr e ↦ rw e (cache_entries-keep rest s)
  ]

  -- A limit that is positive holds, and the entries that are left were there before.
  pub limit_entries-bound :
      (cached : List CachedService)
      → is_pos r.max_cache_size_per_namespace ≡ true
      → (length (limit_entries cached) ≤ pos_part r.max_cache_size_per_namespace)
        × ((c : CachedService) → In c (limit_entries cached) → In c cached)
  unfolding limit_entries
  limit_entries-bound cached h =
      elim (Bool-cases (ltz r.max_cache_size_per_namespace (pos (length cached)))) [
        | inl e ↦
            rw (h, e)
              (
                take-length _ (sort_slice accessed_after cached),
                λ c m.
                    (sort_slice-In accessed_after c cached).0
                      (take-In _ (sort_slice accessed_after cached) c m),
              )
        | inr e ↦ rw (h, e) (ground (arith, h, e), λ c m. m)
      ]

  -- The cached service asks for this request, as its selector matches the pod.
  abbrev pub Asks : Pod → Key → CachedService → Type 0
  Asks pod k c =
      (r.libraries.selector_matches c.selector pod.labels ≡ true)
      × (record { namespace = pod.namespace; name = c.name } ≡ k)

  matching_requests-Asks :
      (pod : Pod) (cs : List CachedService) (k : Key)
      → In k (matching_requests pod cs)
      → (c : CachedService) × In c cs × Asks pod k c
  unfolding matching_requests
  matching_requests-Asks pod [] k m = absurd m
  matching_requests-Asks pod (c ∷ cs) k m =
      elim (Bool-cases (r.libraries.selector_matches c.selector pod.labels)) [
        | inl e ↦ elim (rw e at m) [
          | inl q ↦ (c, inl refl, (e, q))
          | inr t ↦ let (d, i, a) = matching_requests-Asks pod cs k t in (d, inr i, a)
        ]
        | inr e ↦ let (d, i, a) = matching_requests-Asks pod cs k (rw e at m) in (d, inr i, a)
      ]

  Asks-matching_requests :
      (pod : Pod) (cs : List CachedService) (k : Key) (c : CachedService)
      → In c cs
      → Asks pod k c
      → In k (matching_requests pod cs)
  unfolding matching_requests
  Asks-matching_requests pod [] k c i a = absurd i
  Asks-matching_requests pod (d ∷ ds) k c (inl e) a =
      rw (subst (λ x. r.libraries.selector_matches x.selector pod.labels ≡ true) (sym e) (a.0))
        (inl (ap (λ x. record { namespace = pod.namespace; name = x.name }) e ∙ a.1))
  Asks-matching_requests pod (d ∷ ds) k c (inr i) a =
      elim (Bool-cases (r.libraries.selector_matches d.selector pod.labels)) [
        | inl e ↦ rw e (inr (Asks-matching_requests pod ds k c i a))
        | inr e ↦ rw e (Asks-matching_requests pod ds k c i a)
      ]

  if_still_empty_value :
      (ns : String) (cs : List CachedService) (s : State)
      → cached_in ns s ≡ cs
      → (if_still_empty ns cs s).0 ≡ cached_in ns (if_still_empty ns cs s).1
  unfolding ◌>>=◌
  if_still_empty_value ns [] s e = refl
  if_still_empty_value ns (c ∷ cs) s e = sym e

  cache_miss_value :
      (ns : String) (s : State) → (cache_miss ns s).0 ≡ cached_in ns (cache_miss ns s).1
  unfolding cache_miss ◌>>=◌
  cache_miss_value ns s = if_still_empty_value ns (cached_in ns s) s refl

  map_pod_to_service_value :
      (pod : Pod) (s : State)
      → (map_pod_to_service (a_pod pod) s).0
        ≡ matching_requests pod (cached_in pod.namespace (map_pod_to_service (a_pod pod) s).1)
  unfolding map_pod_to_service cache_hit ◌>>=◌
  map_pod_to_service_value pod s = at_cached (cached_in pod.namespace s) refl
    where
      at_cached :
          (cs : List CachedService)
          → cached_in pod.namespace s ≡ cs
          → (map_pod_to_service (a_pod pod) s).0
            ≡ matching_requests pod (cached_in pod.namespace (map_pod_to_service (a_pod pod) s).1)
      at_cached [] e = rw e (ap (matching_requests pod) (cache_miss_value pod.namespace s))
      at_cached (c ∷ cs) e = rw e refl

  -- The requests for a pod are exactly those of the services that the cache of its namespace then
  -- holds, whether it was there before or has been refreshed, and whose selector matches the pod.
  pub map_pod_to_service_iff :
      (pod : Pod) (s : State) (k : Key)
      → In k (map_pod_to_service (a_pod pod) s).0 ↔ (
          (c : CachedService) × In c (cached_in pod.namespace (map_pod_to_service (a_pod pod) s).1)
          × Asks pod k c)
  map_pod_to_service_iff pod s k = (
    λ m. matching_requests-Asks pod _ k (subst (In k) (map_pod_to_service_value pod s) m),
    λ t.
        subst (In k) (sym (map_pod_to_service_value pod s))
          (Asks-matching_requests pod _ k t.0 t.1 t.2),
  )
