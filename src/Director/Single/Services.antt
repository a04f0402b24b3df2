-- ===== src/Director/Single/Services.antt =====
-- The writes of reconcileLeaderService.
use zen_lead.Base.{◌≡◌, refl, String, Option, none, some, List, []}
use zen_lead.Base.Dict.{Dict}
use zen_lead.Kube.Objects.{Pod, Service, ServicePort, EndpointSlice}
use zen_lead.Kube.Errors.{Result, ok, err, is_ok, is_not_found}
use zen_lead.Director.Reconciler.{Call, create_service, patch_service, delete_slice, Reconciler}
use zen_lead.Director.Calls.{send_create_service, send_patch_service, send_delete_slice}
use zen_lead.Director.Sections.{
  Terms, next, call, Does, Does-pure, Does-bind, Does-if, Does-now, Does-record_event, does_rules,
}
use zen_lead.Director.Retry.Laws.{RetryLaws}
use zen_lead.Director.Sections.Retries.{Does-retry}
use zen_lead.Director.Single.{IsSingle}
use zen_lead.Director.Naming.{managed_by_label}
use zen_lead.Director.Metadata.Labels.{lookup-leader_labels}
use zen_lead.Director.Ports.Reads.{resolve_service_ports-Does}
use zen_lead.Director.EndpointSlices.Writes.{update_resource_totals-Does}
use zen_lead.Director.Single.Slices.{reconcile_endpoint_slice-Does}
use zen_lead.Director.LeaderService.{
  new_leader_service, delete_stale_slice, port_resolution_failed, new_annotations, created_service,
  create_leader_service, note_switch, updated_annotations, patch_leader_service,
  write_leader_service, write_both, with_ports, reconcile_leader_service,
}

module _ ⦃r : Reconciler⦄ (laws : RetryLaws r) {terms : Terms}
    (single : (c : Call) → IsSingle c → terms.Allowed c) where
  send_create_service-Does :
      (svc : Service) (name : String) (m : Dict String) (ps : List ServicePort)
      → Does terms (send_create_service (new_leader_service svc name m ps))
  unfolding send_create_service new_leader_service
  send_create_service-Does svc name m ps = record {
    at = λ s0 s h.
        next h
          (call (create_service _ _) (single _ (refl, lookup-leader_labels svc managed_by_label)));
  }

  send_patch_service-Does :
      (old x : Service) → x.selector ≡ [] → Does terms (send_patch_service old x)
  unfolding send_patch_service
  send_patch_service-Does old x e = record {
    at = λ s0 s h. next h (call (patch_service old x _) (single _ e));
  }

  send_delete_slice-Does : (x : EndpointSlice) → Does terms (send_delete_slice x)
  unfolding send_delete_slice
  send_delete_slice-Does x = record {
    at = λ s0 s h. next h (call (delete_slice x _) (single _ tt));
  }

  module _ (svc : Service) where
    port_resolution_failed-Does : Does terms (port_resolution_failed svc)
    unfolding port_resolution_failed delete_stale_slice
    port_resolution_failed-Does = Does-bind _ _ (Does-record_event _ _) λ u.
        Does-bind _ _ (Does-retry laws _ _ _ _ _ (search does_rules)) (elim [
          | err e ↦ Does-pure _
          | ok slice ↦
              Does-bind _ _ (Does-retry laws _ _ _ _ _ (send_delete_slice-Does slice))
                λ deleted. Does-if (is_ok deleted) _ _ (Does-record_event _ _) (Does-pure _)
        ])

    new_annotations-Does : (leader : Option Pod) → Does terms (new_annotations svc leader)
    unfolding new_annotations
    new_annotations-Does none = Does-pure _
    new_annotations-Does (some p) = Does-bind _ _ Does-now λ time. Does-pure _

    created_service-Does : (q : Result (Unit {0})) → Does terms (created_service svc q)
    unfolding created_service
    created_service-Does (err e) = Does-pure _
    created_service-Does (ok u) = search (does_rules, update_resource_totals-Does laws)

    create_leader_service-Does :
        (leader : Option Pod) (ps : List ServicePort)
        → Does terms (create_leader_service svc leader ps)
    unfolding create_leader_service
    create_leader_service-Does leader ps = Does-bind _ _ (new_annotations-Does leader) λ m.
        Does-bind _ _ (Does-retry laws _ _ _ _ _ (send_create_service-Does svc _ m ps))
          created_service-Does

    updated_annotations-Does :
        (leader : Option Pod) (old : Dict String) → Does terms (updated_annotations svc leader old)
    unfolding updated_annotations note_switch
    updated_annotations-Does none old = Does-pure _
    updated_annotations-Does (some p) old = search does_rules depth 7

    patch_leader_service-Does :
        (leader : Option Pod) (ps : List ServicePort) (old : Service)
        → Does terms (patch_leader_service svc leader ps old)
    unfolding patch_leader_service
    patch_leader_service-Does leader ps old =
        Does-bind _ _ (updated_annotations-Does leader old.annotations) λ m.
          Does-bind _ _ (Does-retry laws _ _ _ _ _ (send_patch_service-Does old _ refl))
            (elim [ ok u ↦ Does-pure _ | err e ↦ Does-pure _ ])

    write_leader_service-Does :
        (leader : Option Pod) (ps : List ServicePort)
        → Does terms (write_leader_service svc leader ps)
    unfolding write_leader_service
    write_leader_service-Does leader ps =
        Does-bind _ _ (Does-retry laws _ _ _ _ _ (search does_rules)) (elim [
          | ok old ↦ patch_leader_service-Does leader ps old
          | err e ↦
              Does-if (is_not_found e) _ _ (create_leader_service-Does leader ps) (Does-pure _)
        ])

    write_both-Does :
        (leader : Option Pod) (ps : List ServicePort) → Does terms (write_both svc leader ps)
    unfolding write_both
    write_both-Does leader ps = Does-bind _ _ (write_leader_service-Does leader ps) (elim [
      | err e ↦ Does-pure _
      | ok u ↦
          Does-bind _ _ (reconcile_endpoint_slice-Does laws single svc _ leader ps)
            (elim [ err e ↦ Does-pure _ | ok u ↦ search does_rules ])
    ])

    with_ports-Does :
        (leader : Option Pod) (q : Result (List ServicePort)) → Does terms (with_ports svc leader q)
    with_ports-Does leader (ok ps) = write_both-Does leader ps
    with_ports-Does leader (err e) =
        Does-bind _ _ port_resolution_failed-Does λ u. write_both-Does none []

    pub reconcile_leader_service-Does :
        (leader : Option Pod) → Does terms (reconcile_leader_service svc leader)
    unfolding reconcile_leader_service
    reconcile_leader_service-Does leader =
        Does-bind _ _ (resolve_service_ports-Does svc leader) (with_ports-Does leader)
