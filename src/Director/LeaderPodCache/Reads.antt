-- ===== src/Director/LeaderPodCache/Reads.antt =====
-- The effect of getCurrentLeaderPod and its cache on the shared state, as calls and sections.
use zen_lead.Base.{ℕ, ◌+◌, String, Option, none, some, List, [], ◌∷◌}
use zen_lead.Kube.Objects.{Pod, Service, Endpoint, ObjectReference}
use zen_lead.Kube.Errors.{ok, err}
use zen_lead.Director.Reconciler.{CachedLeaderPod, Reconciler, State, M}
use zen_lead.Director.Sections.{
  Terms, Sections, next, store_leader, clear_leader, drop_leaders, Does, Does-pure, Does-bind,
  Does-now, does_rules,
}
use zen_lead.Director.Retry.Laws.{RetryLaws}
use zen_lead.Director.Sections.Retries.{Does-retry}
use zen_lead.Base.Dict.{Dict}
use zen_lead.Director.Naming.{cache_key}
use zen_lead.Director.Select.{pod_ref}
use zen_lead.Director.LeaderPodCache.{
  run_if, entry_at, clear_leader_pod_cache, store_entry, update_leader_pod_cache, drop_expired,
  cleanup_tick, Signal, stopped, ticked, cleanup_loop, cleanup_leader_pod_cache, unexpired,
  fetch_again, fetch_ref, leader_from_cache, leader_from_endpoints, leader_from_slice,
  get_current_leader_pod,
}

module _ ⦃r : Reconciler⦄ (laws : RetryLaws r) {terms : Terms} where
  pub clear_leader_pod_cache-Does : (key : String) → Does terms (clear_leader_pod_cache key)
  unfolding clear_leader_pod_cache
  clear_leader_pod_cache-Does key = record { at = λ s0 s h. next h (clear_leader key) }

  store_entry-Does : (key : String) (pod : Pod) (ttl : ℕ) → Does terms (store_entry key pod ttl)
  unfolding store_entry
  store_entry-Does key pod ttl =
      Does-bind _ _ Does-now
        λ time. record { at = λ s0 s h. next h (store_leader key pod (time + ttl)) }

  run_if-Does :
      (o : Option (Dict CachedLeaderPod)) (m : M (Unit {0}))
      → Does terms m
      → (s0 s : State) → Sections terms s0 s
      → Sections terms s0 (run_if o m s).1
  run_if-Does none m d s0 s h = h
  run_if-Does (some x) m d s0 s h = d.at s0 s h

  pub update_leader_pod_cache-Does :
      (key : String) (pod : Pod) (ttl : ℕ) → Does terms (update_leader_pod_cache key pod ttl)
  unfolding update_leader_pod_cache
  update_leader_pod_cache-Does key pod ttl = record {
    at = λ s0 s h. run_if-Does s.leader_pod_cache _ (store_entry-Does key pod ttl) s0 s h;
  }

  drop_expired-Does : Does terms drop_expired
  unfolding drop_expired
  drop_expired-Does =
      Does-bind _ _ Does-now λ time. record { at = λ s0 s h. next h (drop_leaders time) }

  cleanup_tick-Does : Does terms cleanup_tick
  unfolding cleanup_tick
  cleanup_tick-Does = record {
    at = λ s0 s h. run_if-Does s.leader_pod_cache _ drop_expired-Does s0 s h;
  }

  cleanup_loop-Does : (signals : List Signal) → Does terms (cleanup_loop signals)
  unfolding cleanup_loop
  cleanup_loop-Does [] = Does-pure _
  cleanup_loop-Does (stopped ∷ rest) = Does-pure _
  cleanup_loop-Does (ticked ∷ rest) = record {
    at = λ s0 s h.
        run_if-Does s.leader_pod_cache _
          (Does-bind _ _ cleanup_tick-Does λ u. cleanup_loop-Does rest) s0 s h;
  }

  pub cleanup_leader_pod_cache-Does :
      (signals : List Signal) → Does terms (cleanup_leader_pod_cache signals)
  unfolding cleanup_leader_pod_cache
  cleanup_leader_pod_cache-Does signals = record {
    at = λ s0 s h. run_if-Does s.leader_pod_cache _ (cleanup_loop-Does signals) s0 s h;
  }

  unexpired-Does : (o : Option CachedLeaderPod) → Does terms (unexpired o)
  unexpired-Does none = Does-pure _
  unexpired-Does (some c) = Does-bind _ _ Does-now λ time. Does-pure _

  module _ (svc : Service) where
    fetch_again-Does : (op ns name uid : String) → Does terms (fetch_again svc op ns name uid)
    unfolding fetch_again
    fetch_again-Does op ns name uid =
        Does-bind _ _ (Does-retry laws _ _ _ _ _ (search does_rules)) λ pod. Does-pure _

    pub leader_from_cache-Does : Does terms (leader_from_cache svc)
    unfolding leader_from_cache
    leader_from_cache-Does = record {
      at = λ s0 s h.
          (Does-bind _ _
              (unexpired-Does (entry_at (cache_key svc.namespace svc.name) s.leader_pod_cache))
              (elim [
                | none ↦ Does-pure _
                | some c ↦ fetch_again-Does "get_pod_cached" c.pod.namespace c.pod.name c.pod.uid
              ])).at
            s0 s h;
    }

    fetch_ref-Does : (t : Option ObjectReference) → Does terms (fetch_ref svc t)
    fetch_ref-Does none = Does-pure _
    fetch_ref-Does (some t) = fetch_again-Does "get_pod" t.namespace t.name t.uid

    pub leader_from_endpoints-Does :
        (es : List Endpoint) → Does terms (leader_from_endpoints svc es)
    unfolding leader_from_endpoints
    leader_from_endpoints-Does [] = Does-bind _ _ (clear_leader_pod_cache-Does _) λ u. Does-pure _
    leader_from_endpoints-Does (e ∷ es) = Does-bind _ _ (fetch_ref-Does (pod_ref e)) (elim [
      | none ↦ leader_from_endpoints-Does es
      | some p ↦ Does-bind _ _ (update_leader_pod_cache-Does _ p _) λ u. Does-pure _
    ])

    leader_from_slice-Does : Does terms (leader_from_slice svc)
    unfolding leader_from_slice
    leader_from_slice-Does =
        Does-bind _ _ (Does-retry laws _ _ _ _ _ (search does_rules))
          (elim [ err e ↦ Does-pure _ | ok x ↦ leader_from_endpoints-Does x.endpoints ])

    pub get_current_leader_pod-Does : Does terms (get_current_leader_pod svc)
    unfolding get_current_leader_pod
    get_current_leader_pod-Does =
        Does-bind _ _ leader_from_cache-Does
          (elim [ some p ↦ Does-pure _ | none ↦ leader_from_slice-Does ])
