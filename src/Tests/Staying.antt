-- ===== src/Tests/Staying.antt =====
-- The youngest pod leads and stays, although an older one is Ready and a slice of another leader
-- service is written.
use zen_lead.Base.{length, ◌≡◌, refl, true, false, none, some, [], ◌∷◌, inl, inr, List}
use zen_lead.Base.Int.{pos}
use zen_lead.Base.Dict.{lookup}
use zen_lead.Kube.Objects.{ServicePort, number, EndpointSlice}
use zen_lead.Kube.Errors.{ok, is_not_found}
use zen_lead.Director.Reconciler.{State, create_slice, read_clock, log, ◌>>=◌}
use zen_lead.Director.Calls.{
  now, record_metric, record_event, fetch_service, fetch_slice, send_create_service,
  send_create_slice,
}
use zen_lead.Director.Retry.{retry_do_with_metrics}
use zen_lead.Director.Naming.{get_leader_service_name, wanted_name}
use zen_lead.Director.Ports.{
  resolve_service_ports, resolve_ports, resolve_target, resolve_named_port, find_in_containers,
  find_port,
}
use zen_lead.Director.Ports.Resolution.{numbered_ports, target_number, declared_port}
use zen_lead.Director.EndpointSlices.{
  address_type, reconcile_endpoint_slice, endpoint_ports, write_slice, update_resource_totals,
  create_new_slice, after_create, written, build_endpoint, new_slice,
}
use zen_lead.Director.LeaderService.{
  leader_key, new_leader_service, reconcile_leader_service, write_both, write_leader_service,
  create_leader_service, created_service, new_annotations,
}
use zen_lead.Director.Select.{is_sticky, select_leader_pod, fetch_sticky}
use zen_lead.Director.Reconcile.Stays.{StillReady, IsReachable, reconcile_leader_service-stays}
use zen_lead.Director.Sections.{Sections, call, nothing, next}
use zen_lead.Director.EndpointSlices.Keyed.{elsewhere}
use zen_lead.Director.EndpointSlices.Published.{Publishes}
use zen_lead.Director.LeaderService.Serves.{served_leader, served_ports}
use zen_lead.Director.LeaderService.Publishing.{reconcile_leader_service-Publishes}
use zen_lead.Tests.Keyed.{keyed, keyed_laws, keyed_by_key, keyed_back}
use zen_lead.Tests.Selection.{differ, only_young, young_pod_ready}
use zen_lead.Tests.Cluster.{young_pod, pods, http_port, web, fresh}

abbrev after_run : State
after_run = (reconcile_leader_service ⦃r = keyed⦄ web (some young_pod) fresh).1

-- the slice of another leader service
abbrev other_slice : EndpointSlice
other_slice = new_slice ⦃r = keyed⦄ web "api-leader" "" "IPv4" (build_endpoint none) []

abbrev later : State
later = log (create_slice other_slice true) (log read_clock after_run)

young_written : (reconcile_leader_service ⦃r = keyed⦄ web (some young_pod) fresh).0 ≡ ok tt
unfolding reconcile_leader_service ◌>>=◌ resolve_service_ports resolve_ports resolve_target
    resolve_named_port find_in_containers find_port write_both write_leader_service
    retry_do_with_metrics fetch_service get_leader_service_name wanted_name lookup is_not_found
    create_leader_service created_service send_create_service reconcile_endpoint_slice
    endpoint_ports write_slice update_resource_totals record_event new_annotations now
    create_new_slice after_create written send_create_slice fetch_slice
young_written = refl

abbrev resolved : List ServicePort
resolved = record http_port { target_port = number (pos 8080) } ∷ []

young_numbered : numbered_ports (some young_pod) web.ports ≡ some resolved
unfolding numbered_ports target_number declared_port find_port
young_numbered = refl

meanwhile :
    Sections ⦃r = keyed⦄ (elsewhere ⦃r = keyed⦄ (leader_key ⦃r = keyed⦄ web)) after_run later
unfolding new_slice get_leader_service_name wanted_name lookup
meanwhile =
    next (next nothing (call read_clock (λ before. refl)))
      (call (create_slice other_slice true) (λ before. refl))

abbrev slice : EndpointSlice
slice =
    new_slice ⦃r = keyed⦄ web "web-leader" "" "IPv4" (build_endpoint (some young_pod))
      (record { name = some "http"; port = some (pos 8080); protocol = some "TCP" } ∷ [])

young_read : (fetch_sticky ⦃r = keyed⦄ web later).0 ≡ ok slice
unfolding reconcile_leader_service ◌>>=◌ resolve_service_ports resolve_ports resolve_target
    resolve_named_port find_in_containers find_port write_both write_leader_service
    retry_do_with_metrics fetch_service get_leader_service_name wanted_name lookup is_not_found
    create_leader_service created_service send_create_service reconcile_endpoint_slice
    endpoint_ports write_slice update_resource_totals record_event new_annotations now
    create_new_slice after_create written send_create_slice fetch_slice fetch_sticky record_metric
    new_leader_service address_type new_slice
young_read = refl

sticky_by_default : is_sticky web ≡ true
unfolding is_sticky lookup
sticky_by_default = refl

young-IsReachable : IsReachable young_pod
young-IsReachable = record { address = differ "10.0.0.3" "" refl; uid = differ "uid-c" "" refl }

young-StillReady : StillReady young_pod pods young_pod
young-StillReady = record {
  member = inr (inr (inl refl));
  same_uid = refl;
  ready = young_pod_ready;
  alone = only_young;
}

reconcile_leader_service-stays_example :
    (select_leader_pod ⦃r = keyed⦄ web pods false later).0 ≡ some young_pod
reconcile_leader_service-stays_example =
    reconcile_leader_service-stays ⦃r = keyed⦄ keyed_laws web
      (keyed_by_key (leader_key ⦃r = keyed⦄ web)) young_pod young_pod resolved pods fresh later
      slice (keyed_back (length later.calls)) young_written young_numbered meanwhile young_read
      sticky_by_default young-IsReachable young-StillReady

reconcile_leader_service-Publishes_example :
    Publishes ⦃r = keyed⦄
      (leader_key ⦃r = keyed⦄ web)
      (served_leader (numbered_ports (some young_pod) web.ports) (some young_pod))
      (served_ports (numbered_ports (some young_pod) web.ports))
      after_run.calls
reconcile_leader_service-Publishes_example =
    reconcile_leader_service-Publishes ⦃r = keyed⦄ keyed_laws web
      (keyed_by_key (leader_key ⦃r = keyed⦄ web)) (some young_pod) fresh young_written
