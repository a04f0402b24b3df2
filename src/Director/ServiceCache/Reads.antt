-- ===== src/Director/ServiceCache/Reads.antt =====
-- The effect of the cache of opted-in services on the shared state, as calls and sections.
use zen_lead.Base.{
  ℕ, ◌≡◌, refl, inl, inr, true, false, not, String, List, [], ◌∷◌, arith, Bool-cases,
}
use zen_lead.Kube.Objects.{Service, Object, a_pod, a_slice, a_service, another}
use zen_lead.Kube.Errors.{Result, ok, err}
use zen_lead.Director.Reconciler.{Calls, CachedService, Reconciler, State, ◌>>=◌, ◌>>◌}
use zen_lead.Director.Calls.{fetch_services, record_metric}
use zen_lead.Metrics.{record_cache_hit}
use zen_lead.Director.Keeps.{Post, Leads, Leads-value, Anything, Anything-Stable}
use zen_lead.Director.Retry.{retry_do_with_metrics}
use mathlib.Core.Path.{subst}
use zen_lead.Director.Sections.{
  Terms, next, remove, put, refresh, touch, Does-if_at, Does-bind_at, Does-record_metric, Does,
  Does-pure, Does-bind, Does-now, does_rules,
}
use zen_lead.Director.Retry.Laws.{RetryLaws, Leads-retry}
use zen_lead.Director.Sections.Retries.{Does-retry}
use zen_lead.Director.ServiceCache.{
  has_selector, is_cacheable, cached_in, put_named, touched, cache_miss, cache_hit,
  map_pod_to_service, read_cached, write_cached, is_cached, remove_service, put_service, make_entry,
  cache_entries, refresh_failed, refresh_with, limit_entries,
  update_opted_in_services_cache_for_service, update_opted_in_services_cache_locked,
  update_opted_in_services_cache,
}
use zen_lead.Director.Naming.{is_enabled}

both_cacheable :
    (svc : Service)
    → not (is_enabled svc) ≡ false
    → not (has_selector svc) ≡ false
    → is_cacheable svc ≡ true
unfolding is_cacheable
both_cacheable svc e f = ground (arith, e, f)

module _ ⦃r : Reconciler⦄ (laws : RetryLaws r) (terms : Terms) where
  -- what the server lists, and what a retry of it returns
  fetch_services-Listing :
      (ns : String)
      → Leads Anything Anything (fetch_services ns []) (λ services cs. terms.Listing services)
  unfolding fetch_services
  fetch_services-Listing ns = record {
    to = λ s h. at_answer s.calls (r.client.list_services s.calls ns []) refl _;
  }
    where
      at_answer :
          (cs : Calls) (q : Result (List Service))
          → r.client.list_services cs ns [] ≡ q
          → (after : Calls) → Post Anything (λ services ds. terms.Listing services) q after
      at_answer cs (ok services) e after = terms.listed cs ns services e
      at_answer cs (err x) e after = tt

  retried-Listing :
      (ns : String) (s : State) (services : List Service)
      → (retry_do_with_metrics r.libraries.default_retry
          (fetch_services ns [])
          ns
          ""
          "list_services_cache"
          s).0
        ≡ ok services
      → terms.Listing services
  retried-Listing ns s services e =
      Leads-value _
        (Leads-retry laws Anything-Stable (λ xs cs. terms.Listing xs) (λ xs c cs q h. h) _ _ ns ""
          "list_services_cache" (fetch_services-Listing ns))
        s services tt e

module _ ⦃r : Reconciler⦄ (laws : RetryLaws r) {terms : Terms} where
  remove_service-Does : (svc : Service) → Does terms (remove_service svc)
  unfolding remove_service ◌>>=◌
  remove_service-Does svc = record {
    at = λ s0 s h. elim (Bool-cases (is_cached svc.name (cached_in svc.namespace s))) [
      | inl e ↦ rw e (next h (remove svc))
      | inr e ↦ rw e h
    ];
  }

  put_at-Does :
      (svc : Service) (time : ℕ)
      → is_cacheable svc ≡ true
      → Does terms (do
        cached ← read_cached svc.namespace
        write_cached svc.namespace (
            put_named
              (record { name = svc.name; selector = svc.selector; last_access = time })
              cached))
  unfolding ◌>>=◌
  put_at-Does svc time c = record { at = λ s0 s h. next h (put svc time c) }

  put_service-Does : (svc : Service) → is_cacheable svc ≡ true → Does terms (put_service svc)
  unfolding put_service
  put_service-Does svc c = Does-bind _ _ Does-now λ time. put_at-Does svc time c

  pub update_opted_in_services_cache_for_service-Does :
      (svc : Service) → Does terms (update_opted_in_services_cache_for_service svc)
  unfolding update_opted_in_services_cache_for_service
  update_opted_in_services_cache_for_service-Does svc =
      Does-if_at (not (is_enabled svc)) _ _ (λ e. remove_service-Does svc)
        λ e.
          Does-if_at (not (has_selector svc)) _ _ (λ f. remove_service-Does svc)
            λ f. put_service-Does svc (both_cacheable svc e f)

  make_entry-Does : (svc : Service) → Does terms (make_entry svc)
  unfolding make_entry
  make_entry-Does svc = search does_rules

  cache_entries-Does : (services : List Service) → Does terms (cache_entries services)
  unfolding cache_entries
  cache_entries-Does [] = Does-pure _
  cache_entries-Does (svc ∷ rest) =
      Does-bind _ _ (make_entry-Does svc)
        λ entry. Does-bind _ _ (cache_entries-Does rest) λ entries. Does-pure _

  write_entries-Does :
      (ns : String) (services : List Service) (entries : List CachedService) (u : State)
      → terms.Listing services
      → (cache_entries services u).0 ≡ entries
      → Does terms (write_cached ns (limit_entries entries))
  write_entries-Does ns services entries u l e =
      subst (λ x. Does terms (write_cached ns (limit_entries x))) e
        (record { at = λ s0 s h. next h (refresh ns services u l) })

  refresh_with-Does :
      (ns : String) (start : ℕ) (services : List Service)
      → terms.Listing services
      → Does terms (refresh_with ns start services)
  unfolding refresh_with
  refresh_with-Does ns start services l =
      Does-bind_at (λ entries. (u : State) × ((cache_entries services u).0 ≡ entries)) _ _
        (λ s. (s, refl)) (cache_entries-Does services)
        λ entries known.
          Does-bind _ _ (write_entries-Does ns services entries (known.0) l (known.1))
            λ u. search does_rules

  refresh_failed-Does : (ns : String) → Does terms (refresh_failed ns)
  unfolding refresh_failed
  refresh_failed-Does ns = search does_rules

  pub update_opted_in_services_cache_locked-Does :
      (ns : String) → Does terms (update_opted_in_services_cache_locked ns)
  unfolding update_opted_in_services_cache_locked
  update_opted_in_services_cache_locked-Does ns = Does-bind _ _ Does-now λ start.
      Does-bind_at (λ q. (services : List Service) → q ≡ ok services → terms.Listing services) _ _
        (λ s services. retried-Listing laws terms ns s services)
        (Does-retry laws _ _ _ _ _ (search does_rules))
        (elim [
          | err e ↦ λ known. refresh_failed-Does ns
          | ok services ↦ λ known. refresh_with-Does ns start services (known services refl)
        ])

  pub update_opted_in_services_cache-Does :
      (ns : String) → Does terms (update_opted_in_services_cache ns)
  unfolding update_opted_in_services_cache
  update_opted_in_services_cache-Does ns = update_opted_in_services_cache_locked-Does ns

  read_cached-Does : (ns : String) → Does terms (read_cached ns)
  read_cached-Does ns = record { at = λ s0 s h. h }

  touch_and_read-Does :
      (ns : String) (time : ℕ)
      → Does terms (do
        cached ← read_cached ns
        write_cached ns (touched time cached)
        record_metric (record_cache_hit ns)
        read_cached ns)
  unfolding ◌>>=◌
  touch_and_read-Does ns time = record {
    at = λ s0 s h. (Does-record_metric (record_cache_hit ns)).at s0 _ (next h (touch ns time));
  }

  cache_hit-Does : (ns : String) → Does terms (cache_hit ns)
  unfolding cache_hit
  cache_hit-Does ns = Does-bind _ _ Does-now λ time. touch_and_read-Does ns time

  cache_miss-Does : (ns : String) → Does terms (cache_miss ns)
  unfolding cache_miss
  cache_miss-Does ns = Does-bind _ _ (read_cached-Does ns) (elim [
    | c ∷ cs ↦ Does-pure _
    | [] ↦
        Does-bind _ _ (Does-record_metric _) λ u.
          Does-bind _ _ (update_opted_in_services_cache_locked-Does ns) λ v. read_cached-Does ns
  ])

  pub map_pod_to_service-Does : (x : Object) → Does terms (map_pod_to_service x)
  unfolding map_pod_to_service
  map_pod_to_service-Does (a_pod pod) =
      Does-bind _ _ (read_cached-Does pod.namespace)
        λ cached. Does-bind _ _ (at_cached cached) λ services. Does-pure _
    where
      at_cached :
          (cs : List CachedService)
          → Does terms
              (elim cs [ [] ↦ cache_miss pod.namespace | d ∷ ds ↦ cache_hit pod.namespace ])
      at_cached [] = cache_miss-Does pod.namespace
      at_cached (d ∷ ds) = cache_hit-Does pod.namespace
  map_pod_to_service-Does (a_slice x) = Does-pure _
  map_pod_to_service-Does (a_service x) = Does-pure _
  map_pod_to_service-Does another = Does-pure _
