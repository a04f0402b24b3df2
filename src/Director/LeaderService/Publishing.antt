-- ===== src/Director/LeaderService/Publishing.antt =====
-- What a successful reconcileLeaderService has written under the leader service's name.
use zen_lead.Base.{◌≡◌, Option, none, List, []}
use zen_lead.Kube.Objects.{Pod, Service, ServicePort}
use zen_lead.Kube.Errors.{Result, ok, err}
use zen_lead.Director.Reconciler.{Reconciler, State}
use zen_lead.Director.Keeps.{
  Leads, Leads-bind, Leads-bind_at, Leads-value, Anything, Keeps-Anything,
}
use zen_lead.Director.Retry.Laws.{RetryLaws}
use zen_lead.Director.Ports.Resolution.{value, numbered_ports, value-resolve_service_ports}
use zen_lead.Director.EndpointSlices.Keyed.{ReadsByKey}
use zen_lead.Director.EndpointSlices.Published.{
  Publishes, Publishes-Stable, reconcile_endpoint_slice-Leads,
}
use zen_lead.Director.LeaderService.{leader_key, write_both, with_ports, reconcile_leader_service}
use zen_lead.Director.LeaderService.Serves.{served_leader, served_ports, write_both-leads_to}

module _ ⦃r : Reconciler⦄ (laws : RetryLaws r) (svc : Service)
    (by_key : ReadsByKey (leader_key svc)) where
  write_both-Leads :
      (leader : Option Pod) (ps : List ServicePort)
      → Leads Anything Anything
          (write_both svc leader ps)
          (λ u. Publishes (leader_key svc) leader ps)
  write_both-Leads leader ps =
      write_both-leads_to laws svc leader ps (Publishes-Stable (leader_key svc) leader ps)
        (reconcile_endpoint_slice-Leads laws svc _ by_key leader ps)

  with_ports-Leads :
      (leader : Option Pod) (q : Result (List ServicePort))
      → value q ≡ numbered_ports leader svc.ports
      → Leads Anything Anything (with_ports svc leader q) (λ u.
        Publishes
          (leader_key svc)
          (served_leader (numbered_ports leader svc.ports) leader)
          (served_ports (numbered_ports leader svc.ports)))
  with_ports-Leads leader (ok ps) h = rw (← h) (write_both-Leads leader ps)
  with_ports-Leads leader (err e) h =
      rw (← h) (Leads-bind _ _ (Keeps-Anything _) (λ u. write_both-Leads none []))

  -- After a successful reconcileLeaderService the slice of the leader service's namespace and name,
  -- as last written, has exactly one endpoint: that of the leader, with its address and a reference
  -- to it by its UID, if it has an address, and with the ports of the service, each with
  -- the number that its target stands for in the leader; or, if one port stands for no number, an
  -- endpoint without an address, that is not ready, and no ports. The conditions: retry.Do is as
  -- RetryLaws says, and a slice that is read for the leader service's key has this namespace and name.
  pub reconcile_leader_service-Publishes :
      (leader : Option Pod) (s : State)
      → (reconcile_leader_service svc leader s).0 ≡ ok tt
      → Publishes
          (leader_key svc)
          (served_leader (numbered_ports leader svc.ports) leader)
          (served_ports (numbered_ports leader svc.ports))
          (reconcile_leader_service svc leader s).1.calls
  unfolding reconcile_leader_service
  reconcile_leader_service-Publishes leader s h =
      Leads-value _
        (Leads-bind_at (λ q. value q ≡ numbered_ports leader svc.ports) _ _
          (value-resolve_service_ports svc leader) (Keeps-Anything _) (with_ports-Leads leader))
        s tt tt h
