-- ===== src/Director/EndpointSlices/Written.antt =====
-- What a successful reconcileEndpointSlice has written.
use zen_lead.Base.{◌≡◌, refl, String, Option, List, [], ◌∷◌}
use zen_lead.Kube.Objects.{Pod, Service, ServicePort, EndpointSlice}
use zen_lead.Kube.Errors.{Result, ok, err}
use zen_lead.Director.Reconciler.{Reconciler, State}
use zen_lead.Director.Keeps.{Leads, Leads-value, Leads-weaken, Anything}
use zen_lead.Director.EndpointSlices.Routes.{Routes-Stable, RoutesTo}
use zen_lead.Director.Retry.Laws.{RetryLaws}
use zen_lead.Director.EndpointSlices.{
  build_endpoint, address_type, new_slice, reconcile_endpoint_slice,
}
use zen_lead.Director.EndpointSlices.Writes.{
  Fetched, write_slice-Leads, reconcile_endpoint_slice-leads_to,
}

Fetched-Unit : (q : Result EndpointSlice) → Fetched (λ x. Unit {0}) q
Fetched-Unit (ok x) = tt
Fetched-Unit (err e) = tt

module _ ⦃r : Reconciler⦄ (laws : RetryLaws r) where
  pub reconcile_endpoint_slice-Leads :
      (svc : Service) (leader_name : String) (leader : Option Pod) (ps : List ServicePort)
      → Leads Anything Anything
          (reconcile_endpoint_slice svc leader_name leader ps)
          (λ u. RoutesTo leader ps)
  unfolding new_slice
  reconcile_endpoint_slice-Leads svc leader_name leader ps =
      reconcile_endpoint_slice-leads_to laws svc leader_name leader ps (RoutesTo leader ps)
        (λ ports h.
          Leads-weaken _
            (write_slice-Leads laws svc leader_name (λ cs. Fetched-Unit _) (address_type leader)
              (build_endpoint leader) ports
              (Routes-Stable (build_endpoint leader) ports (address_type leader))
              (λ uid cs. record {
                slice =
                    new_slice svc leader_name uid (address_type leader) (build_endpoint leader)
                      ports;
                is_now = refl;
                endpoints = refl;
                same_ports = refl;
                same_type = refl;
              })
              (λ old k cs. record {
                slice = record old {
                  endpoints = build_endpoint leader ∷ [];
                  ports = ports;
                  address_type = address_type leader;
                };
                is_now = refl;
                endpoints = refl;
                same_ports = refl;
                same_type = refl;
              }))
            (λ u cs t. record { ports = ports; resolved = h; routes = t }))

  -- After a successful reconcileEndpointSlice the slice, as last written, has exactly one
  -- endpoint, that of the leader, and the ports of the service with their numbers.
  pub reconcile_endpoint_slice-RoutesTo :
      (svc : Service) (leader_name : String) (leader : Option Pod) (ps : List ServicePort)
      (s : State)
      → (reconcile_endpoint_slice svc leader_name leader ps s).0 ≡ ok tt
      → RoutesTo leader ps (reconcile_endpoint_slice svc leader_name leader ps s).1.calls
  reconcile_endpoint_slice-RoutesTo svc leader_name leader ps s h =
      Leads-value _ (reconcile_endpoint_slice-Leads svc leader_name leader ps) s tt tt h
