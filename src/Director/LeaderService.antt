-- ===== src/Director/LeaderService.antt =====
-- service_director.go: reconcileLeaderService.
pub mod Serves
pub mod Publishing
pub mod Annotations
use zen_lead.Base.{
  ℕ, String, Bool, true, false, not, ◌&&◌, Option, none, some, List, [], ◌∷◌, str_eq, is_some,
  if◌then◌else◌,
}
use zen_lead.Base.Dict.{Dict, insert, erase, get}
use zen_lead.Kube.Objects.{Key, Pod, Service, ServicePort, EndpointSlice, OwnerReference}
use zen_lead.Kube.Errors.{Error, Result, ok, err, wrap, is_ok, is_not_found}
use zen_lead.Metrics.{record_leader_stable, record_leader_service_without_endpoints}
use zen_lead.Director.Reconciler.{Reconciler, M, ◌>>=◌, ◌>>◌, pure}
use zen_lead.Director.Calls.{
  now, record_event, record_metric, fetch_service, fetch_slice, fetch_services, send_create_service,
  send_patch_service, send_delete_service, send_delete_slice,
}
use zen_lead.Director.Retry.{retry_do_with_metrics}
use zen_lead.Director.Pods.{is_pod_ready}
use zen_lead.Director.Metadata.{filter_git_ops_labels, filter_git_ops_annotations}
use zen_lead.Director.Naming.{
  managed_by_label, source_service_label, managed_by_value, current_leader_annotation,
  leader_pod_name_annotation, leader_pod_uid_annotation, leader_last_switch_time_annotation,
  get_leader_service_name,
}
use zen_lead.Director.Ports.{resolve_service_ports}
use zen_lead.Director.EndpointSlices.{reconcile_endpoint_slice, update_resource_totals}

-- the three annotations that name the leader pod
unfoldable pub set_leader : Pod → Dict String → Dict String
set_leader p m =
    insert leader_pod_uid_annotation p.uid
      (insert leader_pod_name_annotation p.name (insert current_leader_annotation p.name m))

unfoldable pub unset_leader : Dict String → Dict String
unset_leader m =
    erase leader_pod_uid_annotation
      (erase leader_pod_name_annotation (erase current_leader_annotation m))

-- the type of the leader service
unfoldable pub mirrored_type : Service → String
mirrored_type svc =
    if str_eq svc.cluster_ip "None"
    then "ClusterIP"
    else if str_eq svc.service_type ""
    then "ClusterIP"
    else svc.service_type

-- the labels of a new leader service
unfoldable pub leader_labels : Service → Dict String
leader_labels svc =
    insert source_service_label svc.name
      (insert managed_by_label managed_by_value (filter_git_ops_labels svc.labels))

-- a new leader service
unfoldable pub new_leader_service : Service → String → Dict String → List ServicePort → Service
new_leader_service svc name annotations ports = record {
  namespace = svc.namespace;
  name = name;
  uid = "";
  labels = leader_labels svc;
  annotations = annotations;
  owner_references =
      record {
        api_version = "v1";
        kind = "Service";
        name = svc.name;
        uid = svc.uid;
        controller = some true;
      }
      ∷ [];
  selector = [];
  ports = ports;
  service_type = mirrored_type svc;
  cluster_ip = "";
}

module _ ⦃r : Reconciler⦄ (svc : Service) where
  abbrev pub leader_key : Key
  leader_key = record { namespace = svc.namespace; name = get_leader_service_name svc }

  unfoldable pub delete_stale_slice : EndpointSlice → M (Unit {0})
  delete_stale_slice slice = do
    deleted ←
        retry_do_with_metrics r.libraries.default_retry (send_delete_slice slice) svc.namespace
          svc.name "delete_endpointslice"
    if is_ok deleted then record_event "Warning" "EndpointSliceDeleted" else pure tt

  -- the fail-closed branch: the slice that is there is deleted
  unfoldable pub port_resolution_failed : M (Unit {0})
  port_resolution_failed = do
    record_event "Warning" "PortResolutionFailed"
    existing ←
        retry_do_with_metrics r.libraries.default_retry (fetch_slice leader_key) svc.namespace
          svc.name "get_endpointslice_cleanup"
    elim existing [ err e ↦ pure tt | ok slice ↦ delete_stale_slice slice ]

  -- the annotations of a new leader service
  unfoldable pub new_annotations : Option Pod → M (Dict String)
  new_annotations none = pure (filter_git_ops_annotations svc.annotations)
  new_annotations (some p) = do
    time ← now
    pure (
        insert leader_last_switch_time_annotation (r.libraries.format_time time)
          (set_leader p (filter_git_ops_annotations svc.annotations)))

  unfoldable pub created_service : Result (Unit {0}) → M (Result (Unit {0}))
  created_service (err e) = pure (err (wrap "failed to create leader service" e))
  created_service (ok u) = do
    record_event "Normal" "LeaderServiceCreated"
    record_event "Normal" "LeaderRoutingAvailable"
    update_resource_totals svc.namespace
    pure (ok tt)

  -- the branch where there is no leader service
  unfoldable pub create_leader_service : Option Pod → List ServicePort → M (Result (Unit {0}))
  create_leader_service leader ports = do
    annotations ← new_annotations leader
    created ←
        retry_do_with_metrics r.libraries.default_retry
          (send_create_service
            (new_leader_service svc (get_leader_service_name svc) annotations ports))
          svc.namespace svc.name "create_leader_service"
    created_service created

  -- the switch time and the event of a changed leader; `old` holds the annotations as they were
  unfoldable pub note_switch : Pod → Dict String → Dict String → M (Dict String)
  note_switch p old m = if str_eq (get leader_pod_uid_annotation old) p.uid then pure m else (do
    time ← now
    if not (str_eq (get leader_pod_name_annotation old) "")
          && not (str_eq (get leader_pod_name_annotation old) p.name)
        then record_event "Normal" "LeaderChanged"
        else pure tt
    pure (insert leader_last_switch_time_annotation (r.libraries.format_time time) m))

  -- the annotations of a leader service that is there
  unfoldable pub updated_annotations : Option Pod → Dict String → M (Dict String)
  updated_annotations none old = pure (unset_leader old)
  updated_annotations (some p) old = note_switch p old (set_leader p old)

  -- the branch where the leader service is there
  unfoldable pub patch_leader_service :
      Option Pod → List ServicePort → Service → M (Result (Unit {0}))
  patch_leader_service leader ports old = do
    annotations ← updated_annotations leader old.annotations
    patched ←
        retry_do_with_metrics r.libraries.default_retry
          (send_patch_service old (record old {
            selector = [];
            ports = ports;
            service_type = mirrored_type svc;
            annotations = annotations;
          }))
          svc.namespace svc.name "patch_leader_service"
    elim patched [
      | ok u ↦ pure (ok tt)
      | err e ↦ pure (err (wrap "failed to patch leader service" e))
    ]

  -- the leader service is created or patched
  unfoldable pub write_leader_service : Option Pod → List ServicePort → M (Result (Unit {0}))
  write_leader_service leader ports = do
    found ←
        retry_do_with_metrics r.libraries.default_retry (fetch_service leader_key) svc.namespace
          svc.name "get_leader_service"
    elim found [
      | ok old ↦ patch_leader_service leader ports old
      | err e ↦
          if is_not_found e
          then create_leader_service leader ports
          else pure (err (wrap "failed to get leader service" e))
    ]

  abbrev pub is_stable : Option Pod → Bool
  is_stable none = false
  is_stable (some p) = is_pod_ready p

  -- the service, then the slice, then the metrics
  unfoldable pub write_both : Option Pod → List ServicePort → M (Result (Unit {0}))
  write_both leader ports = do
    service ← write_leader_service leader ports
    elim service [
      | err e ↦ pure (err e)
      | ok u ↦ (do
        slice ← reconcile_endpoint_slice svc (get_leader_service_name svc) leader ports
        elim slice [
          | err e ↦ pure (err (wrap "failed to reconcile endpoint slice" e))
          | ok u ↦ (do
            record_metric (record_leader_stable svc.namespace svc.name (is_stable leader))
            record_metric (
                record_leader_service_without_endpoints svc.namespace svc.name
                  (not (is_stable leader)))
            pure (ok tt))
        ])
    ]

  abbrev pub with_ports : Option Pod → Result (List ServicePort) → M (Result (Unit {0}))
  with_ports leader (ok ps) = write_both leader ps
  with_ports leader (err e) = do port_resolution_failed; write_both none []

  -- reconcileLeaderService: after a failed resolution it goes on without ports and without a leader
  unfoldable pub reconcile_leader_service : Option Pod → M (Result (Unit {0}))
  reconcile_leader_service leader = do
    ports ← resolve_service_ports svc leader
    with_ports leader ports
