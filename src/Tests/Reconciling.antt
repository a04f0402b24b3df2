-- ===== src/Tests/Reconciling.antt =====
-- Runs of the controller in the concrete cluster.
use zen_lead.Director.Pods.{is_pod_ready, ready_condition}
use zen_lead.Base.Sort.{sort_slice}
use zen_lead.Director.LeaderPodCache.{
  get_current_leader_pod, leader_from_cache, leader_from_slice, update_leader_pod_cache,
}
use zen_lead.Director.Select.{
  check_sticky, earlier, earliest_ready, fetch_sticky, is_candidate, is_sticky, note_selected,
  note_sticky, select_earliest, select_leader_pod,
}
use zen_lead.Base.Dict.{lookup}
use zen_lead.Director.Ports.{
  find_in_containers, find_port, resolve_named_port, resolve_ports, resolve_service_ports,
  resolve_target,
}
use zen_lead.Director.Retry.{retry_do_with_metrics}
use zen_lead.Director.Reconciler.{◌>>=◌}
use zen_lead.Base.{◌≡◌, refl, true, some, [], ◌∷◌}
use zen_lead.Kube.Objects.{Key, ServicePort, number}
use zen_lead.Kube.Errors.{ok, is_not_found}
use zen_lead.Base.Int.{pos}
use zen_lead.Director.Calls.{
  now, fetch_pods, fetch_service, fetch_slice, record_event, record_metric, send_create_service,
  send_create_slice,
}
use zen_lead.Director.Naming.{
  is_enabled, get_leader_service_name, get_min_ready_duration, wanted_name,
}
use zen_lead.Director.ServiceCache.{has_selector, update_opted_in_services_cache_for_service}
use zen_lead.Director.EndpointSlices.{
  reconcile_endpoint_slice, after_create, create_new_slice, endpoint_ports, update_resource_totals,
  write_slice, written,
}
use zen_lead.Director.EndpointSlices.Published.{Publishes, reconcile_endpoint_slice-Publishes}
use zen_lead.Tests.Keyed.{keyed, keyed_laws, keyed_by_key}
use zen_lead.Director.LeaderService.{
  reconcile_leader_service, create_leader_service, created_service, new_annotations, write_both,
  write_leader_service,
}
use zen_lead.Director.LeaderService.Serves.{Serves, reconcile_leader_service-Serves}
use zen_lead.Director.Reconcile.{
  fetch_source, reconcile, apply_leader, cache_new_leader, fast_path, healthy, leader_change,
  leader_changed, list_candidates, reconcile_pods, reconcile_service, service_enabled, succeed,
}
use zen_lead.Director.Reconcile.Serving.{ServesListed, reconcile-ServesListed}
use zen_lead.Director.Single.{SingleActive}
use zen_lead.Director.Single.Runs.{reconcile-SingleActive}
use zen_lead.Tests.Cluster.{ready_pod, http_port, web, web_key, tester, tester_laws, fresh}

abbrev numbered_port : ServicePort
numbered_port = record http_port { target_port = number (pos 8080) }

abbrev slice_key : Key
slice_key = record { namespace = "shop"; name = "web-leader" }

slice_written :
    (reconcile_endpoint_slice ⦃r = keyed⦄ web "web-leader"
      (some ready_pod)
      (numbered_port ∷ [])
      fresh).0
    ≡ ok tt
unfolding reconcile_endpoint_slice endpoint_ports write_slice ◌>>=◌ retry_do_with_metrics
    fetch_slice is_not_found create_new_slice after_create written send_create_slice
slice_written = refl

reconcile_endpoint_slice-Publishes_example :
    Publishes ⦃r = keyed⦄ slice_key
      (some ready_pod)
      (numbered_port ∷ [])
      (reconcile_endpoint_slice ⦃r = keyed⦄ web "web-leader"
        (some ready_pod)
        (numbered_port ∷ [])
        fresh).1.calls
reconcile_endpoint_slice-Publishes_example =
    reconcile_endpoint_slice-Publishes ⦃r = keyed⦄ keyed_laws web "web-leader"
      (keyed_by_key slice_key) (some ready_pod) (numbered_port ∷ []) fresh slice_written

service_reconciled : (reconcile_leader_service ⦃r = tester⦄ web (some ready_pod) fresh).0 ≡ ok tt
unfolding reconcile_leader_service ◌>>=◌ resolve_service_ports resolve_ports resolve_target
    resolve_named_port find_in_containers find_port write_both write_leader_service
    retry_do_with_metrics fetch_service get_leader_service_name wanted_name lookup is_not_found
    create_leader_service created_service send_create_service reconcile_endpoint_slice
    endpoint_ports write_slice update_resource_totals record_event new_annotations now
    create_new_slice after_create written send_create_slice fetch_slice
service_reconciled = refl

reconcile_leader_service-Serves_example :
    Serves ⦃r = tester⦄ web
      (some ready_pod)
      (reconcile_leader_service ⦃r = tester⦄ web (some ready_pod) fresh).1.calls
reconcile_leader_service-Serves_example =
    reconcile_leader_service-Serves ⦃r = tester⦄ tester_laws web (some ready_pod) fresh
      service_reconciled

web_found : (fetch_source ⦃r = tester⦄ web_key (now ⦃r = tester⦄ fresh).1).0 ≡ ok web
unfolding fetch_source now retry_do_with_metrics fetch_service
web_found = refl

web_enabled : is_enabled web ≡ true
unfolding is_enabled lookup
web_enabled = refl

web_selects : has_selector web ≡ true
unfolding has_selector
web_selects = refl

web_reconciled : (reconcile ⦃r = tester⦄ web_key fresh).0 ≡ ok tt
unfolding reconcile ◌>>=◌ fetch_source retry_do_with_metrics fetch_service is_enabled lookup
    service_enabled has_selector reconcile_service list_candidates fetch_pods reconcile_pods
    apply_leader reconcile_leader_service resolve_service_ports resolve_ports resolve_target
    select_leader_pod is_sticky fast_path get_current_leader_pod leader_from_cache record_metric
    update_opted_in_services_cache_for_service now leader_from_slice fetch_slice healthy
    check_sticky note_sticky fetch_sticky select_earliest note_selected earliest_ready sort_slice
    is_candidate is_pod_ready ready_condition get_min_ready_duration earlier resolve_named_port
    find_in_containers find_port write_both write_leader_service get_leader_service_name wanted_name
    leader_changed leader_change cache_new_leader update_leader_pod_cache is_not_found
    create_leader_service created_service send_create_service reconcile_endpoint_slice
    endpoint_ports write_slice update_resource_totals record_event new_annotations create_new_slice
    after_create written send_create_slice succeed
web_reconciled = refl

reconcile-ServesListed_example :
    ServesListed ⦃r = tester⦄ web (reconcile ⦃r = tester⦄ web_key fresh).1.calls
reconcile-ServesListed_example =
    reconcile-ServesListed ⦃r = tester⦄ tester_laws web_key web fresh web_found web_enabled
      web_selects web_reconciled

reconcile-SingleActive_example : SingleActive (reconcile ⦃r = tester⦄ web_key fresh).1.calls
reconcile-SingleActive_example = reconcile-SingleActive ⦃r = tester⦄ tester_laws web_key fresh tt
