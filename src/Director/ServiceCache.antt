-- ===== src/Director/ServiceCache.antt =====
-- service_director.go: the cache of opted-in services of each namespace, and the maps from watched
-- objects to the services to reconcile. A body that holds cacheMu is one step here.
pub mod Reads
pub mod Contents
pub mod Selectors
pub mod Requests
pub mod Limit
pub mod Sound
use zen_lead.Base.{
  ℕ, ◌-◌, String, Bool, true, false, not, ◌&&◌, ◌||◌, Option, none, some, List, [], ◌∷◌, ◌++◌, map,
  str_eq, ltb, length, take, if◌then◌else◌,
}
use mathlib.Core.Option
use zen_lead.Base.Dict.{Dict, lookup, insert, get}
use zen_lead.Base.Sort.{sort_slice}
use zen_lead.Base.Int.{ℤ, pos, pos_part, is_pos, ltz}
use zen_lead.Kube.Objects.{
  Key, Pod, Service, EndpointSlice, Object, a_pod, a_slice, a_service, another,
}
use zen_lead.Kube.Errors.{Result, ok, err}
use zen_lead.Metrics.{
  record_cache_size, record_cache_update_duration, record_cache_hit, record_cache_miss,
  record_timeout,
}
use zen_lead.Director.Reconciler.{Reconciler, CachedService, State, M, ◌>>=◌, ◌>>◌, pure}
use zen_lead.Director.Calls.{now, record_metric, deadline_exceeded, fetch_services}
use zen_lead.Director.Retry.{retry_do_with_metrics}
use zen_lead.Director.Naming.{
  is_enabled, endpoint_slice_managed_by_label, managed_by_value, source_service_label,
}

unfoldable pub has_selector : Service → Bool
has_selector svc = elim svc.selector [ [] ↦ false | x ∷ xs ↦ true ]

-- a service that belongs into the cache
unfoldable pub is_cacheable : Service → Bool
is_cacheable svc = is_enabled svc && has_selector svc

-- r.optedInServicesCache[namespace]
abbrev pub cached_in : String → State → List CachedService
cached_in ns s = Option.get_or (lookup ns s.opted_in_services_cache) []

abbrev pub read_cached : String → M (List CachedService)
read_cached ns s = (cached_in ns s, s)

abbrev pub write_cached : String → List CachedService → M (Unit {0})
write_cached ns cs s =
    (tt, record s { opted_in_services_cache = insert ns cs s.opted_in_services_cache })

-- the search by name in updateOptedInServicesCacheForService
unfoldable pub is_cached : String → List CachedService → Bool
is_cached name [] = false
is_cached name (c ∷ cs) = str_eq c.name name || is_cached name cs

-- the first entry of this name is left out
unfoldable pub remove_named : String → List CachedService → List CachedService
remove_named name [] = []
remove_named name (c ∷ cs) = if str_eq c.name name then cs else c ∷ remove_named name cs

-- the first entry of this name gets the selector and the time; one is appended if there is none
unfoldable pub put_named : CachedService → List CachedService → List CachedService
put_named x [] = x ∷ []
put_named x (c ∷ cs) = if str_eq c.name x.name then x ∷ cs else c ∷ put_named x cs

-- cached[i].lastAccess.After(cached[j].lastAccess)
abbrev accessed_after : CachedService → CachedService → Bool
accessed_after a b = ltb b.last_access a.last_access

-- the loop of a cache hit that sets the access times
unfoldable pub touched : ℕ → List CachedService → List CachedService
touched time [] = []
touched time (c ∷ cs) = record c { last_access = time } ∷ touched time cs

module _ ⦃r : Reconciler⦄ where
  remove_service : Service → M (Unit {0})
  remove_service svc = do
    cached ← read_cached svc.namespace
    if is_cached svc.name cached
        then write_cached svc.namespace (remove_named svc.name cached)
        else pure tt

  put_service : Service → M (Unit {0})
  put_service svc = do
    time ← now
    cached ← read_cached svc.namespace
    write_cached svc.namespace
        (put_named (record { name = svc.name; selector = svc.selector; last_access = time }) cached)

  -- updateOptedInServicesCacheForService
  unfoldable pub update_opted_in_services_cache_for_service : Service → M (Unit {0})
  unfolding remove_service put_service
  update_opted_in_services_cache_for_service svc =
      if not (is_enabled svc)
      then remove_service svc
      else if not (has_selector svc)
      then remove_service svc
      else put_service svc

  make_entry : Service → M (Option CachedService)
  make_entry svc =
      if is_cacheable svc
      then (do
        time ← now
        pure (some (record { name = svc.name; selector = svc.selector; last_access = time })))
      else pure none

  abbrev with_entry : Option CachedService → List CachedService → List CachedService
  with_entry none cs = cs
  with_entry (some c) cs = c ∷ cs

  -- the loop over the listed services; each entry reads the clock
  unfoldable pub cache_entries : List Service → M (List CachedService)
  unfolding make_entry
  cache_entries [] = pure []
  cache_entries (svc ∷ rest) = do
    entry ← make_entry svc
    entries ← cache_entries rest
    pure (with_entry entry entries)

  -- the size limit, by access time
  unfoldable pub limit_entries : List CachedService → List CachedService
  limit_entries cached =
      if is_pos r.max_cache_size_per_namespace
        && ltz r.max_cache_size_per_namespace (pos (length cached))
      then take (pos_part r.max_cache_size_per_namespace) (sort_slice accessed_after cached)
      else cached

  refresh_failed : String → M (Unit {0})
  refresh_failed ns = do
    late ← deadline_exceeded
    if late then record_metric (record_timeout ns "cache_update") else pure tt

  refresh_with : String → ℕ → List Service → M (Unit {0})
  refresh_with ns start services = do
    entries ← cache_entries services
    write_cached ns (limit_entries entries)
    if not r.metrics then pure tt else (do
      end ← now
      record_metric (record_cache_size ns (length (limit_entries entries)))
      record_metric (record_cache_update_duration ns (end - start)))

  -- updateOptedInServicesCacheLocked
  unfoldable pub update_opted_in_services_cache_locked : String → M (Unit {0})
  unfolding refresh_failed refresh_with
  update_opted_in_services_cache_locked ns = do
    start ← now
    listed ←
        retry_do_with_metrics r.libraries.default_retry (fetch_services ns []) ns ""
          "list_services_cache"
    elim listed [ err e ↦ refresh_failed ns | ok services ↦ refresh_with ns start services ]

  -- updateOptedInServicesCache
  unfoldable pub update_opted_in_services_cache : String → M (Unit {0})
  update_opted_in_services_cache ns = update_opted_in_services_cache_locked ns

  -- the requests for the cached services whose selector matches
  unfoldable pub matching_requests : Pod → List CachedService → List Key
  matching_requests pod [] = []
  matching_requests pod (c ∷ cs) =
      let rest = matching_requests pod cs in
      if r.libraries.selector_matches c.selector pod.labels
      then record { namespace = pod.namespace; name = c.name } ∷ rest
      else rest

  abbrev if_still_empty : String → List CachedService → M (List CachedService)
  if_still_empty ns (c ∷ cs) = pure (c ∷ cs)
  if_still_empty ns [] = do
    record_metric (record_cache_miss ns)
    update_opted_in_services_cache_locked ns
    read_cached ns

  -- the cache is read again under the lock, and refreshed if it is still empty
  cache_miss : String → M (List CachedService)
  cache_miss ns = do again ← read_cached ns; if_still_empty ns again

  cache_hit : String → M (List CachedService)
  cache_hit ns = do
    time ← now
    cached ← read_cached ns
    write_cached ns (touched time cached)
    record_metric (record_cache_hit ns)
    read_cached ns

  -- mapPodToService
  unfoldable pub map_pod_to_service : Object → M (List Key)
  unfolding cache_miss cache_hit touched
  map_pod_to_service (a_pod pod) = do
    cached ← read_cached pod.namespace
    services ← elim cached [ [] ↦ cache_miss pod.namespace | c ∷ cs ↦ cache_hit pod.namespace ]
    pure (matching_requests pod services)
  map_pod_to_service _ = pure []

-- mapEndpointSliceToService
unfoldable pub map_endpoint_slice_to_service : Object → List Key
map_endpoint_slice_to_service (a_slice x) =
    if not (str_eq (get endpoint_slice_managed_by_label x.labels) managed_by_value)
    then []
    else elim (lookup source_service_label x.labels) [
      | none ↦ []
      | some name ↦ record { namespace = x.namespace; name = name } ∷ []
    ]
map_endpoint_slice_to_service _ = []
