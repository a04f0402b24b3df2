-- ===== src/Tests/Caches.antt =====
-- The caches, the watches and the annotations on concrete inputs.
use zen_lead.Base.Int.{pos, negsuc}
use zen_lead.Director.Constructor.{
  Limits, HasLimits, new_service_director_reconciler, new_service_director_reconciler-HasLimits,
}
use zen_lead.Director.Retry.{retry_do_with_metrics}
use zen_lead.Director.Calls.{fetch_pod, fetch_services, now, record_metric}
use zen_lead.Base.{
  ltb, true, ℕ, ◌+◌, ◌≤◌, ◌≡◌, refl, ◌↔◌, ◌⊎◌, false, ◌&&◌, String, none, some, List, [], ◌∷◌, In,
  length, str_eq, if◌then◌else◌,
}
use zen_lead.Base.Dict.{Dict, lookup, insert}
use zen_lead.Kube.Objects.{a_pod, a_slice}
use zen_lead.Director.Reconciler.{CachedLeaderPod, CachedService, State, ◌>>=◌}
use zen_lead.Director.Pods.{is_pod_ready, ready_condition, update_func, updated, pod_predicate}
use zen_lead.Director.Naming.{is_enabled, cache_key}
use zen_lead.Director.EndpointSlices.{build_endpoint, new_slice}
use zen_lead.Director.EndpointSlices.Watched.{map_endpoint_slice_to_service-new_slice}
use zen_lead.Director.LeaderService.{new_annotations, updated_annotations, new_leader_service}
use zen_lead.Director.LeaderService.Annotations.{
  NamesLeader, updated_annotations-NamesLeader, is_enabled-new_leader_service,
}
use zen_lead.Director.LeaderPodCache.{
  update_leader_pod_cache, cleanup_tick, leader_from_cache, get_current_leader_pod, with_uid,
  fetch_again,
}
use zen_lead.Director.LeaderPodCache.Entries.{
  cleanup_tick-In, leader_from_cache-update_leader_pod_cache,
}
use zen_lead.Director.LeaderPodCache.Current.{CachedUid, SliceUid, get_current_leader_pod_uid}
use zen_lead.Director.ServiceCache.{
  is_cacheable, has_selector, cached_in, update_opted_in_services_cache_for_service, cache_entries,
  limit_entries, map_pod_to_service, map_endpoint_slice_to_service, matching_requests,
  update_opted_in_services_cache_locked,
}
use zen_lead.Director.ServiceCache.Selectors.{selector_of, update_for_service-selector_of}
use zen_lead.Director.ServiceCache.Contents.{NamesOnce}
use mathlib.Core.List.{Perm}
use zen_lead.Base.{◌++◌}
use zen_lead.Director.ServiceCache.Limit.{NoEarlier, limit_entries-newest}
use zen_lead.Director.ServiceCache.Requests.{Asks, map_pod_to_service_iff}
use zen_lead.Director.Reconcile.Watch.{IsHarmless, pod_predicate_ignored}
use zen_lead.Tests.Cluster.{tester_laws, old_pod, ready_pod, young_pod, web, web_key, tester, fresh}

renamed : update_func ready_pod (record ready_pod { node_name = "node-2" }) ≡ false
unfolding update_func is_pod_ready ready_condition
renamed = refl

dropped :
    pod_predicate (updated (a_pod ready_pod) (a_pod (record ready_pod { node_name = "node-2" })))
    ≡ false
unfolding pod_predicate
dropped = renamed

pod_predicate_ignored_example :
    IsHarmless (updated (a_pod ready_pod) (a_pod (record ready_pod { node_name = "node-2" })))
pod_predicate_ignored_example =
    pod_predicate_ignored
      (updated (a_pod ready_pod) (a_pod (record ready_pod { node_name = "node-2" }))) dropped

map_endpoint_slice_to_service-new_slice_example :
    map_endpoint_slice_to_service (
      a_slice (
        new_slice ⦃r = tester⦄ web "web-leader" "uid-l" "IPv4"
          (build_endpoint (some ready_pod))
          []))
    ≡ web_key ∷ []
map_endpoint_slice_to_service-new_slice_example =
    map_endpoint_slice_to_service-new_slice ⦃r = tester⦄ web "web-leader" "uid-l" "IPv4"
      (build_endpoint (some ready_pod)) []

updated_annotations-NamesLeader_example :
    NamesLeader
      (some ready_pod)
      (updated_annotations ⦃r = tester⦄ web
        (some ready_pod)
        (("zen-lead.io/leader-pod-uid", "uid-a") ∷ [])
        fresh).0
updated_annotations-NamesLeader_example =
    updated_annotations-NamesLeader ⦃r = tester⦄ web (some ready_pod)
      (("zen-lead.io/leader-pod-uid", "uid-a") ∷ []) fresh

is_enabled-new_leader_service_example :
    is_enabled (
      new_leader_service web "web-leader"
        (new_annotations ⦃r = tester⦄ web (some ready_pod) fresh).0
        [])
    ≡ is_enabled web
is_enabled-new_leader_service_example =
    is_enabled-new_leader_service ⦃r = tester⦄ web (some ready_pod) "web-leader" [] fresh

abbrev old_entry : CachedLeaderPod
old_entry = record { pod = old_pod; expires_at = 0; service_key = "shop/web" }

abbrev new_entry : CachedLeaderPod
new_entry = record { pod = ready_pod; expires_at = 30; service_key = "shop/web" }

abbrev two_entries : Dict CachedLeaderPod
two_entries = ("shop/api", old_entry) ∷ ("shop/web", new_entry) ∷ []

abbrev warm : State
warm = record fresh { leader_pod_cache = some two_entries }

cleanup_tick-In_example :
    (left : Dict CachedLeaderPod) × ((cleanup_tick ⦃r = tester⦄ warm).1.leader_pod_cache
      ≡ some left)
    × ((e : String × CachedLeaderPod) → In e left ↔ (In e two_entries × (0 ≤ e.1.expires_at)))
cleanup_tick-In_example = cleanup_tick-In ⦃r = tester⦄ warm two_entries refl

leader_from_cache-update_leader_pod_cache_example :
    (leader_from_cache ⦃r = tester⦄ web
      (update_leader_pod_cache ⦃r = tester⦄ (cache_key "shop" "web") young_pod 30 warm).1).0
    ≡ (let t =
          (update_leader_pod_cache ⦃r = tester⦄ (cache_key "shop" "web") young_pod 30 warm).1 in
        if ltb (now ⦃r = tester⦄ t).0 ((now ⦃r = tester⦄ warm).0 + 30)
        then (fetch_again ⦃r = tester⦄ web "get_pod_cached" "shop" young_pod.name young_pod.uid
            (now ⦃r = tester⦄ t).1).0
        else none)
leader_from_cache-update_leader_pod_cache_example =
    leader_from_cache-update_leader_pod_cache ⦃r = tester⦄ web young_pod 30 warm two_entries refl

current : (get_current_leader_pod ⦃r = tester⦄ web warm).0 ≡ some ready_pod
unfolding get_current_leader_pod ◌>>=◌ leader_from_cache lookup cache_key now with_uid
    retry_do_with_metrics fetch_pod
current = refl

get_current_leader_pod_uid_example :
    CachedUid ⦃r = tester⦄ web "uid-b" warm
    ⊎ SliceUid ⦃r = tester⦄ web "uid-b"
        (length warm.calls)
        (get_current_leader_pod ⦃r = tester⦄ web warm).1.calls
get_current_leader_pod_uid_example =
    get_current_leader_pod_uid ⦃r = tester⦄ tester_laws web warm ready_pod current

fresh-NamesOnce : (ns : String) → NamesOnce (cached_in ns fresh)
unfolding lookup
fresh-NamesOnce ns = tt

update_for_service-selector_of_example :
    selector_of "web"
      (cached_in "shop" (update_opted_in_services_cache_for_service ⦃r = tester⦄ web fresh).1)
    ≡ (if str_eq "shop" "shop" && str_eq "web" "web"
        then (if is_cacheable web then some web.selector else none)
        else selector_of "web" (cached_in "shop" fresh))
update_for_service-selector_of_example =
    update_for_service-selector_of ⦃r = tester⦄ web fresh "shop" "web" (fresh-NamesOnce "shop")

abbrev entry : String → ℕ → CachedService
entry name time = record { name = name; selector = []; last_access = time }

abbrev three_services : List CachedService
three_services = entry "a" 1 ∷ entry "b" 3 ∷ entry "c" 2 ∷ []

limit_entries-newest_example :
    (dropped : List CachedService) × Perm
      (limit_entries ⦃r = tester⦄ three_services ++ dropped)
      three_services
    × (length (limit_entries ⦃r = tester⦄ three_services) ≤ 2)
    × (length three_services ≤ 2 → dropped ≡ [])
    × NoEarlier (limit_entries ⦃r = tester⦄ three_services) dropped
limit_entries-newest_example = limit_entries-newest ⦃r = tester⦄ three_services refl

map_pod_to_service_iff_example :
    In web_key (map_pod_to_service ⦃r = tester⦄ (a_pod ready_pod) fresh).0 ↔ (
      (c : CachedService) × In c
        (cached_in "shop" (map_pod_to_service ⦃r = tester⦄ (a_pod ready_pod) fresh).1)
      × Asks ⦃r = tester⦄ ready_pod web_key c)
map_pod_to_service_iff_example = map_pod_to_service_iff ⦃r = tester⦄ ready_pod fresh web_key

pod_asks_web : (map_pod_to_service ⦃r = tester⦄ (a_pod ready_pod) fresh).0 ≡ web_key ∷ []
unfolding map_pod_to_service ◌>>=◌ matching_requests lookup update_opted_in_services_cache_locked
    retry_do_with_metrics fetch_services record_metric now insert cache_entries is_cacheable
    is_enabled has_selector limit_entries
pod_asks_web = refl

abbrev no_limits : Limits
no_limits = record {
  max_cache_size_per_namespace = pos 0;
  max_concurrent_reconciles = negsuc 4;
  cache_update_timeout = pos 0;
  metrics_collection_timeout = pos 7;
  fast_retry_initial_delay = pos 0;
  fast_retry_max_delay = pos 0;
  fast_retry_max_attempts = pos 0;
  enable_leader_pod_cache = true;
  leader_pod_cache_ttl = pos 0;
  enable_parallel_api_calls = false;
}

new_service_director_reconciler-HasLimits_example :
    HasLimits (new_service_director_reconciler tester.client tester.libraries no_limits)
new_service_director_reconciler-HasLimits_example =
    new_service_director_reconciler-HasLimits tester.client tester.libraries no_limits
