-- ===== src/Director/LeaderPodCache.antt =====
-- service_director.go: the cache of the current leader pod of each service, and getCurrentLeaderPod.
pub mod Reads
pub mod Entries
pub mod Current
use zen_lead.Base.{
  ℕ, ◌+◌, String, Bool, true, false, not, ◌&&◌, Option, none, some, List, [], ◌∷◌, str_eq, ltb,
  if◌then◌else◌,
}
use zen_lead.Base.Dict.{Dict, lookup, insert, erase, filter}
use zen_lead.Kube.Objects.{Key, Pod, Service, Endpoint, EndpointSlice, ObjectReference}
use zen_lead.Kube.Errors.{Result, ok, err}
use zen_lead.Director.Reconciler.{Reconciler, CachedLeaderPod, State, M, ◌>>=◌, ◌>>◌, pure}
use zen_lead.Director.Calls.{now, fetch_pod, fetch_slice}
use zen_lead.Director.Retry.{retry_do_with_metrics}
use zen_lead.Director.Naming.{cache_key, get_leader_service_name}
use zen_lead.Director.Select.{pod_ref}

-- 30*time.Second, which every caller passes
abbrev pub default_ttl : ℕ
default_ttl = 30000000000

-- a change of the map, if the cache is on
abbrev pub on_cache : (Dict CachedLeaderPod → Dict CachedLeaderPod) → State → State
on_cache f s = record s {
  leader_pod_cache = elim s.leader_pod_cache [ none ↦ none | some m ↦ some (f m) ];
}

-- `if r.leaderPodCache == nil { return }`
abbrev run_if : Option (Dict CachedLeaderPod) → M (Unit {0}) → M (Unit {0})
run_if none m s = (tt, s)
run_if (some x) m s = m s

-- now.After(expiresAt)
abbrev pub has_expired : ℕ → CachedLeaderPod → Bool
has_expired time c = ltb c.expires_at time

-- clearLeaderPodCache
unfoldable pub clear_leader_pod_cache : String → M (Unit {0})
clear_leader_pod_cache key s = (tt, on_cache (erase key) s)

-- What reaches the goroutine of the cleanup: the end of its context, or a tick.
pub data Signal : Type 0 where
  stopped ticked : Signal

module _ ⦃r : Reconciler⦄ where
  store_entry : String → Pod → ℕ → M (Unit {0})
  store_entry key pod ttl = do
    time ← now
    λ s. (
      tt,
      on_cache (insert key (record { pod = pod; expires_at = time + ttl; service_key = key })) s,
    )

  -- updateLeaderPodCache; the clock is read only if the cache is on
  unfoldable pub update_leader_pod_cache : String → Pod → ℕ → M (Unit {0})
  unfolding store_entry
  update_leader_pod_cache key pod ttl s = run_if s.leader_pod_cache (store_entry key pod ttl) s

  drop_expired : M (Unit {0})
  drop_expired = do time ← now; λ s. (tt, on_cache (filter (λ k c. not (has_expired time c))) s)

  -- one tick of the loop of cleanupLeaderPodCache
  unfoldable pub cleanup_tick : M (Unit {0})
  unfolding drop_expired
  cleanup_tick s = run_if s.leader_pod_cache drop_expired s

  -- the loop of cleanupLeaderPodCache, by what its select receives
  unfoldable pub cleanup_loop : List Signal → M (Unit {0})
  cleanup_loop [] = pure tt
  cleanup_loop (stopped ∷ rest) = pure tt
  cleanup_loop (ticked ∷ rest) =
      let after = cleanup_loop rest in λ s. run_if s.leader_pod_cache (do cleanup_tick; after) s

  -- cleanupLeaderPodCache
  unfoldable pub cleanup_leader_pod_cache : List Signal → M (Unit {0})
  cleanup_leader_pod_cache signals s = run_if s.leader_pod_cache (cleanup_loop signals) s

  -- a pod read again, if it still has the UID
  unfoldable pub with_uid : String → Result Pod → Option Pod
  with_uid uid (err e) = none
  with_uid uid (ok pod) = if str_eq pod.uid uid then some pod else none

  abbrev live_entry : ℕ → Option CachedLeaderPod → Option CachedLeaderPod
  live_entry time none = none
  live_entry time (some c) = if ltb time c.expires_at then some c else none

  -- an entry of the cache, and nothing where it is off; the clock is read if there is one
  abbrev unexpired : Option CachedLeaderPod → M (Option CachedLeaderPod)
  unexpired none = pure none
  unexpired (some c) = do time ← now; pure (live_entry time (some c))

  abbrev entry_at : String → Option (Dict CachedLeaderPod) → Option CachedLeaderPod
  entry_at key none = none
  entry_at key (some m) = lookup key m

  module _ (svc : Service) where
    pub fetch_again : String → String → String → String → M (Option Pod)
    fetch_again op ns name uid = do
      pod ←
          retry_do_with_metrics r.fast_retry_config
            (fetch_pod (record { namespace = ns; name = name })) svc.namespace svc.name op
      pure (with_uid uid pod)

    fetch_cached : Option CachedLeaderPod → M (Option Pod)
    unfolding fetch_again
    fetch_cached none = pure none
    fetch_cached (some c) = fetch_again "get_pod_cached" c.pod.namespace c.pod.name c.pod.uid

    -- the cached leader, if its entry is live and the pod still exists with its UID
    unfoldable pub leader_from_cache : M (Option Pod)
    unfolding fetch_cached
    leader_from_cache s =
        (do
          entry ← unexpired (entry_at (cache_key svc.namespace svc.name) s.leader_pod_cache)
          fetch_cached entry)
          s

    abbrev fetch_ref : Option ObjectReference → M (Option Pod)
    fetch_ref none = pure none
    fetch_ref (some t) = fetch_again "get_pod" t.namespace t.name t.uid

    -- a leader that is found is cached
    found_or : M (Option Pod) → Option Pod → M (Option Pod)
    found_or rest none = rest
    found_or rest (some p) = do
      update_leader_pod_cache (cache_key svc.namespace svc.name) p default_ttl
      pure (some p)

    -- the loop over the endpoints: the first whose pod exists with the UID
    unfoldable pub leader_from_endpoints : List Endpoint → M (Option Pod)
    unfolding fetch_again found_or
    leader_from_endpoints [] = do
      clear_leader_pod_cache (cache_key svc.namespace svc.name)
      pure none
    leader_from_endpoints (e ∷ es) = do
      pod ← fetch_ref (pod_ref e)
      found_or (leader_from_endpoints es) pod

    abbrev from_slice : Result EndpointSlice → M (Option Pod)
    from_slice (err e) = pure none
    from_slice (ok x) = leader_from_endpoints x.endpoints

    unfoldable pub leader_from_slice : M (Option Pod)
    leader_from_slice = do
      slice ←
          retry_do_with_metrics r.fast_retry_config
            (fetch_slice (record { namespace = svc.namespace; name = get_leader_service_name svc }))
            svc.namespace svc.name "get_endpointslice"
      from_slice slice

    abbrev or_slice : Option Pod → M (Option Pod)
    or_slice (some p) = pure (some p)
    or_slice none = leader_from_slice

    -- getCurrentLeaderPod
    unfoldable pub get_current_leader_pod : M (Option Pod)
    get_current_leader_pod = do cached ← leader_from_cache; or_slice cached
