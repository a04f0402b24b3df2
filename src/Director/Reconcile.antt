-- ===== src/Director/Reconcile.antt =====
-- service_director.go: Reconcile. Its ctrl.Result is always empty, so an outcome is an error or none.
pub mod Serving
pub mod Watch
pub mod Returns
pub mod Failover
pub mod Stays
use zen_lead.Base.{
  ℕ, ◌+◌, ◌-◌, String, Bool, true, false, not, ◌&&◌, ◌||◌, Option, none, some, List, [], ◌∷◌,
  str_eq, is_some, bool_eq, keep, length, if◌then◌else◌,
}
use zen_lead.Kube.Objects.{Key, Pod, Service}
use zen_lead.Kube.Errors.{Error, Result, ok, err, other, wrap, is_not_found}
use zen_lead.Metrics.{
  record_reconciliation_duration, record_reconciliation_error, record_reconciliation,
  record_pods_available, record_leader_selection_attempt, record_failover, record_failover_latency,
  reset_leader_duration, record_leader_duration, record_leader_pod_age,
  record_leader_service_without_endpoints,
}
use zen_lead.Director.Reconciler.{Reconciler, M, ◌>>=◌, ◌>>◌, pure}
use zen_lead.Director.Calls.{now, record_event, record_metric, fetch_service, fetch_pods}
use zen_lead.Director.Retry.{retry_do_with_metrics}
use zen_lead.Director.Pods.{is_pod_ready}
use zen_lead.Director.Naming.{is_enabled, cache_key}
use zen_lead.Director.ServiceCache.{
  has_selector, update_opted_in_services_cache, update_opted_in_services_cache_for_service,
}
use zen_lead.Director.LeaderPodCache.{
  default_ttl, clear_leader_pod_cache, update_leader_pod_cache, get_current_leader_pod,
}
use zen_lead.Director.Select.{select_leader_pod}
use zen_lead.Director.LeaderService.{reconcile_leader_service}
use zen_lead.Director.Cleanup.{cleanup_leader_resources}

-- the test of the leader fast path
unfoldable pub is_unhealthy : Pod → Bool
is_unhealthy p = is_some p.deletion_timestamp || not (is_pod_ready p) || str_eq p.pod_ip ""

-- why a pod may not lead, and `fallback` if it may
unfoldable pub failover_reason : String → Pod → String
failover_reason fallback p =
    if is_some p.deletion_timestamp
    then "terminating"
    else if not (is_pod_ready p)
    then "notReady"
    else if str_eq p.pod_ip ""
    then "noIP"
    else fallback

-- whether the leader changed, by UID
unfoldable pub leader_changed : Option Pod → Option Pod → Bool
leader_changed none none = false
leader_changed none (some q) = true
leader_changed (some p) none = true
leader_changed (some p) (some q) = not (str_eq p.uid q.uid)

-- what the fast path leaves: the current leader, and of a failover its start and its reason. The
-- stickiness is bypassed exactly if there is a start.
pub record FastPath : Type 0 where
  pub current : Option Pod
  pub bypass_stickiness : Bool
  pub failover_start : Option ℕ
  pub reason : String

module _ ⦃r : Reconciler⦄ where
  -- the duration metric of a run that began at `start`
  unfoldable pub finish : ℕ → String → String → String → M (Unit {0})
  finish start ns name result = do
    end ← now
    record_metric (record_reconciliation_duration ns name result (end - start))

  -- a run that fails
  unfoldable pub fail : ℕ → String → String → String → Error → M (Result (Unit {0}))
  fail start ns name class e = do
    finish start ns name "error"
    record_metric (record_reconciliation_error ns name class)
    pure (err e)

  unfoldable pub succeed : ℕ → String → String → M (Result (Unit {0}))
  succeed start ns name = do finish start ns name "success"; pure (ok tt)

  -- the service could not be read
  unfoldable pub service_missing : ℕ → Key → Error → M (Result (Unit {0}))
  service_missing start req e = do
    update_opted_in_services_cache req.namespace
    if is_not_found e
        then (do
          result ← cleanup_leader_resources req
          finish start req.namespace req.name "success"
          pure result)
        else fail start req.namespace req.name "service_not_found" e

  -- the service is not opted in
  unfoldable pub service_disabled : ℕ → Key → Service → M (Result (Unit {0}))
  service_disabled start req svc = do
    update_opted_in_services_cache_for_service svc
    result ← cleanup_leader_resources req
    finish start req.namespace svc.name "success"
    pure result

  abbrev count_ready : List Pod → ℕ
  count_ready pods = length (keep is_pod_ready pods)

  -- no pod matches the selector
  unfoldable pub no_pods_found : ℕ → Service → M (Result (Unit {0}))
  no_pods_found start svc = do
    record_event "Warning" "NoPodsFound"
    result ← reconcile_leader_service svc none
    elim result [
      | err e ↦ fail start svc.namespace svc.name "reconcile_service_failed" e
      | ok u ↦ succeed start svc.namespace svc.name
    ]

  unfoldable pub healthy : Option Pod → M FastPath
  healthy current =
      pure (record {
        current = current;
        bypass_stickiness = false;
        failover_start = none;
        reason = "";
      })

  -- the leader fast path: an unhealthy leader is given up at once
  unfoldable pub fast_path : Service → Option Pod → M FastPath
  fast_path svc none = healthy none
  fast_path svc (some p) = if not (is_unhealthy p) then healthy (some p) else (do
    time ← now
    clear_leader_pod_cache (cache_key svc.namespace svc.name)
    pure (record {
      current = none;
      bypass_stickiness = true;
      failover_start = some time;
      reason = failover_reason "" p;
    }))

  unfoldable pub cache_new_leader : Service → Option Pod → M (Unit {0})
  cache_new_leader svc none = clear_leader_pod_cache (cache_key svc.namespace svc.name)
  cache_new_leader svc (some p) =
      update_leader_pod_cache (cache_key svc.namespace svc.name) p default_ttl

  abbrev pub change_reason : FastPath → Option Pod → String
  change_reason path (some p) = failover_reason "noneReady" p
  change_reason path none = if not (str_eq path.reason "") then path.reason else "noneReady"

  unfoldable pub record_latency : Service → String → Option ℕ → M (Unit {0})
  record_latency svc reason none = pure tt
  record_latency svc reason (some start) = do
    time ← now
    record_metric (record_failover_latency svc.namespace svc.name reason (time - start))

  -- what follows a change of the leader
  unfoldable pub leader_change : Service → FastPath → Option Pod → M (Unit {0})
  leader_change svc path leader = do
    cache_new_leader svc leader
    if not r.metrics then pure tt else (do
      record_metric (record_failover svc.namespace svc.name (change_reason path path.current))
      record_latency svc (change_reason path path.current) path.failover_start
      record_metric (reset_leader_duration svc.namespace svc.name))

  unfoldable pub record_leader : Service → Option Pod → M (Unit {0})
  record_leader svc (some p) = do
    time ← now
    record_metric (record_leader_duration svc.namespace svc.name (time - p.creation_timestamp))
    record_metric (record_leader_pod_age svc.namespace svc.name (time - p.creation_timestamp))
  record_leader svc none =
      record_metric (record_leader_service_without_endpoints svc.namespace svc.name true)

  -- the leader service and its slice, and the metrics of the run
  unfoldable pub apply_leader : ℕ → Service → Option Pod → M (Result (Unit {0}))
  apply_leader start svc leader = do
    result ← reconcile_leader_service svc leader
    elim result [
      | err e ↦ fail start svc.namespace svc.name "reconcile_service_failed" e
      | ok u ↦ (do record_leader svc leader; succeed start svc.namespace svc.name)
    ]

  -- from the pods to the end
  unfoldable pub reconcile_pods : ℕ → Service → List Pod → M (Result (Unit {0}))
  reconcile_pods start svc pods = do
    current ← get_current_leader_pod svc
    path ← fast_path svc current
    record_metric (record_leader_selection_attempt svc.namespace svc.name)
    record_metric (record_reconciliation svc.namespace svc.name "success")
    leader ← select_leader_pod svc pods path.bypass_stickiness
    if leader_changed path.current leader then leader_change svc path leader else pure tt
    apply_leader start svc leader

  -- the pods that match the selector
  unfoldable pub list_candidates : Service → M (Result (List Pod))
  list_candidates svc =
      retry_do_with_metrics r.libraries.default_retry (fetch_pods svc.namespace svc.selector)
        svc.namespace svc.name "list_pods"

  abbrev pub with_pods : ℕ → Service → List Pod → M (Result (Unit {0}))
  with_pods start svc [] = no_pods_found start svc
  with_pods start svc (p ∷ ps) = reconcile_pods start svc (p ∷ ps)

  -- a valid service that is opted in
  unfoldable pub reconcile_service : ℕ → Service → M (Result (Unit {0}))
  reconcile_service start svc = do
    listed ← list_candidates svc
    elim listed [
      | err e ↦
          fail start svc.namespace svc.name "list_pods_failed"
            (wrap "failed to list pods for service" e)
      | ok pods ↦ (do
        record_metric (record_pods_available svc.namespace svc.name (count_ready pods))
        with_pods start svc pods)
    ]

  -- the checks of a service that is opted in
  unfoldable pub service_enabled : ℕ → Key → Service → M (Result (Unit {0}))
  service_enabled start req svc = do
    update_opted_in_services_cache_for_service svc
    if not (r.libraries.is_dns1123_label req.namespace)
        then fail start req.namespace req.name "invalid_namespace"
            (other "invalid namespace format")
        else if not (r.libraries.is_dns1123_subdomain req.name)
        then fail start req.namespace req.name "invalid_service_name"
            (other "invalid service name format")
        else if not (has_selector svc)
        then (do record_event "Warning" "InvalidService"; succeed start svc.namespace svc.name)
        else reconcile_service start svc

  -- the service of the request
  unfoldable pub fetch_source : Key → M (Result Service)
  fetch_source req =
      retry_do_with_metrics r.libraries.default_retry (fetch_service req) req.namespace req.name
        "get_service"

  abbrev pub with_source : ℕ → Key → Result Service → M (Result (Unit {0}))
  with_source start req (err e) = service_missing start req e
  with_source start req (ok svc) =
      if is_enabled svc then service_enabled start req svc else service_disabled start req svc

  -- Reconcile
  unfoldable pub reconcile : Key → M (Result (Unit {0}))
  reconcile req = do start ← now; found ← fetch_source req; with_source start req found
