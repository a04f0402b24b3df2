-- ===== src/Director/Single/Slices.antt =====
-- The writes of reconcileEndpointSlice.
use zen_lead.Base.{refl, ◌&&◌, String, Option, List, is_some}
use zen_lead.Kube.Objects.{Pod, Service, ServicePort, EndpointPort, EndpointSlice}
use zen_lead.Kube.Errors.{Result, ok, err, is_not_found}
use zen_lead.Director.Reconciler.{Call, create_slice, patch_slice, Reconciler}
use zen_lead.Director.Calls.{send_create_slice, send_patch_slice}
use zen_lead.Director.Sections.{Terms, next, call, Does, Does-pure, Does-bind, Does-if, does_rules}
use zen_lead.Director.Retry.Laws.{RetryLaws}
use zen_lead.Director.Sections.Retries.{Does-retry}
use zen_lead.Director.EndpointSlices.{
  endpoint_ports, build_endpoint, address_type, new_slice, written, after_create, create_new_slice,
  patch_existing_slice, write_slice, no_ports, with_ports, reconcile_endpoint_slice,
}
use zen_lead.Director.EndpointSlices.Writes.{update_resource_totals-Does}
use zen_lead.Director.Single.{IsSingle, HasOneTarget, build_endpoint_address}

module _ ⦃r : Reconciler⦄ (laws : RetryLaws r) {terms : Terms}
    (single : (c : Call) → IsSingle c → terms.Allowed c) where
  send_create_slice-Does : (x : EndpointSlice) → HasOneTarget x → Does terms (send_create_slice x)
  unfolding send_create_slice
  send_create_slice-Does x t = record {
    at = λ s0 s h. next h (call (create_slice x _) (single _ t));
  }

  send_patch_slice-Does :
      (old x : EndpointSlice) → HasOneTarget x → Does terms (send_patch_slice old x)
  unfolding send_patch_slice
  send_patch_slice-Does old x t = record {
    at = λ s0 s h. next h (call (patch_slice old x _) (single _ t));
  }

  module _ (svc : Service) (leader_name : String) where
    written-Does :
        (text : String) (q : Result (Unit {0})) → Does terms (written svc leader_name text q)
    unfolding written
    written-Does text (ok u) = Does-pure _
    written-Does text (err e) = search does_rules

    after_create-Does : (q : Result (Unit {0})) → Does terms (after_create svc leader_name q)
    unfolding after_create
    after_create-Does q = Does-bind _ _ (written-Does _ q) (elim [
      | err e ↦ Does-pure _
      | ok u ↦ Does-bind _ _ (update_resource_totals-Does laws svc.namespace) λ u. Does-pure _
    ])

    write_slice-Does :
        (type : String) (leader : Option Pod) (ports : List EndpointPort)
        → Does terms (write_slice svc leader_name type (build_endpoint leader) ports)
    unfolding write_slice patch_existing_slice create_new_slice new_slice
    write_slice-Does type leader ports =
        Does-bind _ _ (Does-retry laws _ _ _ _ _ (search does_rules)) (elim [
          | ok old ↦
              Does-bind _ _
                (Does-retry laws _ _ _ _ _ (
                  send_patch_slice-Does old _ (record {
                    endpoint = build_endpoint leader;
                    only = refl;
                    address = build_endpoint_address leader;
                  })))
                λ q. written-Does _ q
          | err e ↦
              Does-if (is_not_found e) _ _
                (Does-bind _ _ (Does-retry laws _ _ _ _ _ (search does_rules)) λ owner.
                  Does-bind _ _
                    (Does-retry laws _ _ _ _ _ (
                      send_create_slice-Does _ (record {
                        endpoint = build_endpoint leader;
                        only = refl;
                        address = build_endpoint_address leader;
                      })))
                    λ q. after_create-Does q)
                (Does-pure _)
        ])

    pub reconcile_endpoint_slice-Does :
        (leader : Option Pod) (ps : List ServicePort)
        → Does terms (reconcile_endpoint_slice svc leader_name leader ps)
    unfolding reconcile_endpoint_slice
    reconcile_endpoint_slice-Does leader ps =
        Does-if (no_ports ps && is_some leader) _ _ (Does-pure _) (at_ports (endpoint_ports ps))
      where
        at_ports :
            (q : Result (List EndpointPort)) → Does terms (with_ports svc leader_name leader q)
        at_ports (err e) = Does-pure _
        at_ports (ok ports) = write_slice-Does (address_type leader) leader ports
