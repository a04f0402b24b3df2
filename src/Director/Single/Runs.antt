-- ===== src/Director/Single/Runs.antt =====
-- The writes of a whole run of Reconcile.
use zen_lead.Base.{ℕ, String, Option, none, some, List, [], ◌∷◌}
use zen_lead.Kube.Objects.{Key, Pod, Service}
use zen_lead.Kube.Errors.{Error, Result, ok, err}
use zen_lead.Director.Reconciler.{Call, delete_service, Reconciler, State}
use zen_lead.Director.Calls.{send_delete_service}
use zen_lead.Director.Sections.{
  Terms, nothing, next, call, Does, Does-pure, Does-bind, Does-if, Does-now, Does-record_event,
  does_rules,
}
use zen_lead.Director.Retry.Laws.{RetryLaws}
use zen_lead.Director.Sections.Retries.{Does-retry}
use zen_lead.Director.Single.{IsSingle, SingleActive, quiet-IsSingle}
use zen_lead.Director.Sections.Reached.{Sections-calls}
use zen_lead.Director.Naming.{is_enabled}
use zen_lead.Director.ServiceCache.Reads.{
  update_opted_in_services_cache-Does, update_opted_in_services_cache_for_service-Does,
}
use zen_lead.Director.LeaderPodCache.Reads.{
  clear_leader_pod_cache-Does, update_leader_pod_cache-Does, get_current_leader_pod-Does,
}
use zen_lead.Director.Select.Reads.{select_leader_pod-Does}
use zen_lead.Director.Single.Services.{reconcile_leader_service-Does}
use zen_lead.Director.Cleanup.{
  delete_by_name, delete_each, delete_by_label, cleanup_leader_resources,
}
use zen_lead.Director.Reconcile.{
  FastPath, finish, fail, succeed, service_missing, service_disabled, no_pods_found, healthy,
  fast_path, cache_new_leader, record_latency, leader_change, record_leader, apply_leader,
  reconcile_pods, with_pods, list_candidates, reconcile_service, service_enabled, fetch_source,
  with_source, reconcile,
}

module _ ⦃r : Reconciler⦄ (laws : RetryLaws r) {terms : Terms}
    (single : (c : Call) → IsSingle c → terms.Allowed c) where
  send_delete_service-Does : (x : Service) → Does terms (send_delete_service x)
  unfolding send_delete_service
  send_delete_service-Does x = record {
    at = λ s0 s h. next h (call (delete_service x _) (single _ tt));
  }

  delete_by_name-Does : (key : Key) (svc : Service) → Does terms (delete_by_name key svc)
  unfolding delete_by_name
  delete_by_name-Does key svc =
      Does-bind _ _ (Does-retry laws _ _ _ _ _ (search does_rules)) (elim [
        | err e ↦ Does-pure _
        | ok leader ↦ Does-retry laws _ _ _ _ _ (send_delete_service-Does leader)
      ])

  delete_each-Does : (key : Key) (services : List Service) → Does terms (delete_each key services)
  unfolding delete_each
  delete_each-Does key [] = Does-pure _
  delete_each-Does key (x ∷ rest) =
      Does-bind _ _ (Does-retry laws _ _ _ _ _ (send_delete_service-Does x))
        λ deleted. delete_each-Does key rest

  delete_by_label-Does : (key : Key) → Does terms (delete_by_label key)
  unfolding delete_by_label
  delete_by_label-Does key = Does-bind _ _ (Does-retry laws _ _ _ _ _ (search does_rules)) (elim [
    | err e ↦ Does-pure _
    | ok items ↦ Does-bind _ _ (delete_each-Does key items) λ u. Does-pure _
  ])

  cleanup_leader_resources-Does : (key : Key) → Does terms (cleanup_leader_resources key)
  unfolding cleanup_leader_resources
  cleanup_leader_resources-Does key =
      Does-bind _ _ (Does-retry laws _ _ _ _ _ (search does_rules))
        (elim [ ok svc ↦ delete_by_name-Does key svc | err e ↦ delete_by_label-Does key ])

  finish-Does : (start : ℕ) (ns name result : String) → Does terms (finish start ns name result)
  unfolding finish
  finish-Does start ns name result = search does_rules

  fail-Does :
      (start : ℕ) (ns name class : String) (e : Error) → Does terms (fail start ns name class e)
  unfolding fail
  fail-Does start ns name class e = search (does_rules, finish-Does)

  succeed-Does : (start : ℕ) (ns name : String) → Does terms (succeed start ns name)
  unfolding succeed
  succeed-Does start ns name = search (does_rules, finish-Does)

  service_missing-Does :
      (start : ℕ) (req : Key) (e : Error) → Does terms (service_missing start req e)
  unfolding service_missing
  service_missing-Does start req e = search (
    does_rules,
    finish-Does,
    fail-Does,
    cleanup_leader_resources-Does,
    update_opted_in_services_cache-Does laws,
  )

  service_disabled-Does :
      (start : ℕ) (req : Key) (svc : Service) → Does terms (service_disabled start req svc)
  unfolding service_disabled
  service_disabled-Does start req svc = search (
    does_rules,
    finish-Does,
    cleanup_leader_resources-Does,
    update_opted_in_services_cache_for_service-Does laws,
  )

  no_pods_found-Does : (start : ℕ) (svc : Service) → Does terms (no_pods_found start svc)
  unfolding no_pods_found
  no_pods_found-Does start svc = Does-bind _ _ (Does-record_event _ _) λ u.
      Does-bind _ _ (reconcile_leader_service-Does laws single svc none) (elim [
        | err e ↦ fail-Does start svc.namespace svc.name _ e
        | ok u ↦ succeed-Does start svc.namespace svc.name
      ])

  fast_path-Does : (svc : Service) (current : Option Pod) → Does terms (fast_path svc current)
  unfolding fast_path healthy
  fast_path-Does svc none = Does-pure _
  fast_path-Does svc (some p) = search (does_rules, clear_leader_pod_cache-Does laws)

  cache_new_leader-Does :
      (svc : Service) (leader : Option Pod) → Does terms (cache_new_leader svc leader)
  unfolding cache_new_leader
  cache_new_leader-Does svc none = clear_leader_pod_cache-Does laws _
  cache_new_leader-Does svc (some p) = update_leader_pod_cache-Does laws _ p _

  record_latency-Does :
      (svc : Service) (reason : String) (start : Option ℕ)
      → Does terms (record_latency svc reason start)
  unfolding record_latency
  record_latency-Does svc reason none = Does-pure _
  record_latency-Does svc reason (some start) = search does_rules

  leader_change-Does :
      (svc : Service) (path : FastPath) (leader : Option Pod)
      → Does terms (leader_change svc path leader)
  unfolding leader_change
  leader_change-Does svc path leader =
      search (does_rules, cache_new_leader-Does, record_latency-Does) depth 8

  record_leader-Does : (svc : Service) (leader : Option Pod) → Does terms (record_leader svc leader)
  unfolding record_leader
  record_leader-Does svc none = search does_rules
  record_leader-Does svc (some p) = search does_rules

  apply_leader-Does :
      (start : ℕ) (svc : Service) (leader : Option Pod) → Does terms (apply_leader start svc leader)
  unfolding apply_leader
  apply_leader-Does start svc leader =
      Does-bind _ _ (reconcile_leader_service-Does laws single svc leader) (elim [
        | err e ↦ fail-Does start svc.namespace svc.name _ e
        | ok u ↦
            Does-bind _ _ (record_leader-Does svc leader)
              λ u. succeed-Does start svc.namespace svc.name
      ])

  with_pods-Does :
      (start : ℕ) (svc : Service) (pods : List Pod) → Does terms (with_pods start svc pods)
  unfolding reconcile_pods
  with_pods-Does start svc [] = no_pods_found-Does start svc
  with_pods-Does start svc (p ∷ ps) =
      search
        (
          does_rules,
          get_current_leader_pod-Does laws,
          select_leader_pod-Does laws,
          fast_path-Does,
          leader_change-Does,
          apply_leader-Does,
        )
        depth 10

  reconcile_service-Does : (start : ℕ) (svc : Service) → Does terms (reconcile_service start svc)
  unfolding reconcile_service list_candidates
  reconcile_service-Does start svc =
      Does-bind _ _ (Does-retry laws _ _ _ _ _ (search does_rules)) (elim [
        | err e ↦ fail-Does start svc.namespace svc.name _ _
        | ok pods ↦ search (does_rules, with_pods-Does)
      ])

  service_enabled-Does :
      (start : ℕ) (req : Key) (svc : Service) → Does terms (service_enabled start req svc)
  unfolding service_enabled
  service_enabled-Does start req svc =
      search
        (
          does_rules,
          fail-Does,
          succeed-Does,
          reconcile_service-Does,
          update_opted_in_services_cache_for_service-Does laws,
        )
        depth 8

  with_source-Does :
      (start : ℕ) (req : Key) (q : Result Service) → Does terms (with_source start req q)
  with_source-Does start req (err e) = service_missing-Does start req e
  with_source-Does start req (ok svc) =
      Does-if (is_enabled svc) _ _ (service_enabled-Does start req svc)
        (service_disabled-Does start req svc)

  pub reconcile-Does : (req : Key) → Does terms (reconcile req)
  unfolding reconcile fetch_source
  reconcile-Does req = Does-bind _ _ Does-now λ start.
      Does-bind _ _ (Does-retry laws _ _ _ _ _ (search does_rules))
        λ found. with_source-Does start req found

-- The calls that leave traffic with a single target, and any listing.
abbrev singly : ⦃r : Reconciler⦄ → Terms
singly = record {
  Allowed = IsSingle;
  Listing = λ services. Unit {0};
  quiet = quiet-IsSingle;
  listed = λ cs ns services e. tt;
}

module _ ⦃r : Reconciler⦄ (laws : RetryLaws r) where
  -- Whatever the server answers, and whether the run fails or not, every service that a run of
  -- Reconcile creates or patches has no selector, every service that it creates is marked as
  -- managed by zen-lead, and every slice that it writes has one endpoint with at most one address.
  pub reconcile-SingleActive :
      (req : Key) (s : State) → SingleActive s.calls → SingleActive (reconcile req s).1.calls
  reconcile-SingleActive req s =
      Sections-calls {P = SingleActive} (λ c cs a h. (a, h))
        ((reconcile-Does laws {terms = singly} (λ c a. a) req).at s s nothing)
