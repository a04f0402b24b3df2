-- ===== src/Director/EndpointSlices/Watched.antt =====
-- mapEndpointSliceToService against the slices that reconcileEndpointSlice makes.
use zen_lead.Base.{◌≡◌, refl, String, List, [], ◌∷◌}
use zen_lead.Kube.Objects.{Service, Endpoint, EndpointPort, a_slice}
use zen_lead.Director.Reconciler.{Reconciler}
use zen_lead.Director.Naming.{endpoint_slice_managed_by_label, source_service_label}
use zen_lead.Director.Metadata.Labels.{lookup-slice_labels}
use zen_lead.Director.ServiceCache.{map_endpoint_slice_to_service}
use zen_lead.Director.EndpointSlices.{new_slice}

-- An event of a slice that the controller made asks for its source service, and for nothing else.
pub map_endpoint_slice_to_service-new_slice :
    ⦃r : Reconciler⦄ (svc : Service) (leader_name uid type : String) (e : Endpoint)
    (ports : List EndpointPort)
    → map_endpoint_slice_to_service (a_slice (new_slice svc leader_name uid type e ports))
      ≡ record { namespace = svc.namespace; name = svc.name } ∷ []
unfolding map_endpoint_slice_to_service new_slice
map_endpoint_slice_to_service-new_slice svc leader_name uid type e ports =
    rw
      (
        lookup-slice_labels svc leader_name endpoint_slice_managed_by_label,
        lookup-slice_labels svc leader_name source_service_label,
      )
      refl
