-- ===== src/Director/LeaderService/Serves.antt =====
-- What a successful reconcileLeaderService has written to the slice.
use zen_lead.Base.{◌≡◌, Option, none, some, List, []}
use zen_lead.Kube.Objects.{Pod, Service, ServicePort}
use zen_lead.Kube.Errors.{Result, ok, err}
use zen_lead.Director.Reconciler.{Calls, Reconciler, State}
use zen_lead.Director.Keeps.{
  Leads, Leads-ok, Leads-err, Leads-bind, Leads-bind_at, Leads-step, Leads-value, Keeps-Leads,
  Stable, Anything, Keeps-Anything, Keeps-record_metric,
}
use zen_lead.Director.Retry.Laws.{RetryLaws}
use zen_lead.Director.Ports.Resolution.{value, numbered_ports, value-resolve_service_ports}
use zen_lead.Director.EndpointSlices.Routes.{RoutesTo, RoutesTo-Stable}
use zen_lead.Director.EndpointSlices.Written.{reconcile_endpoint_slice-Leads}
use zen_lead.Director.Naming.{get_leader_service_name}
use zen_lead.Director.EndpointSlices.{reconcile_endpoint_slice}
use zen_lead.Director.LeaderService.{write_both, with_ports, reconcile_leader_service}

-- What is served: the leader on its resolved ports, or nobody if a port has no number.
abbrev pub served_leader : Option (List ServicePort) → Option Pod → Option Pod
served_leader none leader = none
served_leader (some qs) leader = leader

abbrev pub served_ports : Option (List ServicePort) → List ServicePort
served_ports none = []
served_ports (some qs) = qs

-- The slice routes to the leader with the service's ports, or, if a port of the service cannot be
-- resolved against the leader, to nobody and with no ports.
abbrev pub Serves : ⦃r : Reconciler⦄ → Service → Option Pod → Calls → Type 0
Serves svc leader =
    RoutesTo (served_leader (numbered_ports leader svc.ports) leader)
      (served_ports (numbered_ports leader svc.ports))

module _ ⦃r : Reconciler⦄ (laws : RetryLaws r) (svc : Service) where
  -- What the slice's reconciliation leads to, the whole write does.
  pub write_both-leads_to :
      (leader : Option Pod) (ps : List ServicePort) {Q : Calls → Type 0}
      → Stable Q
      → Leads Anything Anything
          (reconcile_endpoint_slice svc (get_leader_service_name svc) leader ps)
          (λ u. Q)
      → Leads Anything Anything (write_both svc leader ps) (λ u. Q)
  unfolding write_both
  write_both-leads_to leader ps {Q} stQ slice =
      Leads-step (λ u. Anything) _ _ (Keeps-Leads _ (Keeps-Anything _))
        (λ u.
          Leads-step (λ u. Q) _ _ slice
            (λ u.
              Leads-bind _ _ (Keeps-record_metric stQ _)
                (λ u. Leads-bind _ _ (Keeps-record_metric stQ _) (λ u. Leads-ok tt (λ cs h. h))))
            (λ e. Leads-err _ (λ cs h. h)))
        (λ e. Leads-err e (λ cs h. h))

  write_both-Leads :
      (leader : Option Pod) (ps : List ServicePort)
      → Leads Anything Anything (write_both svc leader ps) (λ u. RoutesTo leader ps)
  write_both-Leads leader ps =
      write_both-leads_to leader ps (RoutesTo-Stable leader ps)
        (reconcile_endpoint_slice-Leads laws svc _ leader ps)

  with_ports-Leads :
      (leader : Option Pod) (q : Result (List ServicePort))
      → value q ≡ numbered_ports leader svc.ports
      → Leads Anything Anything (with_ports svc leader q) (λ u. Serves svc leader)
  with_ports-Leads leader (ok ps) h = rw (← h) (write_both-Leads leader ps)
  with_ports-Leads leader (err e) h =
      rw (← h) (Leads-bind _ _ (Keeps-Anything _) (λ u. write_both-Leads none []))

  pub reconcile_leader_service-Leads :
      (leader : Option Pod)
      → Leads Anything Anything (reconcile_leader_service svc leader) (λ u. Serves svc leader)
  unfolding reconcile_leader_service
  reconcile_leader_service-Leads leader =
      Leads-bind_at (λ q. value q ≡ numbered_ports leader svc.ports) _ _
        (value-resolve_service_ports svc leader) (Keeps-Anything _) (with_ports-Leads leader)

  -- After a successful reconcileLeaderService the slice, as last written, routes to the leader
  -- with the ports of the service, or to nobody and with no ports if one of them cannot be
  -- resolved against the leader.
  pub reconcile_leader_service-Serves :
      (leader : Option Pod) (s : State)
      → (reconcile_leader_service svc leader s).0 ≡ ok tt
      → Serves svc leader (reconcile_leader_service svc leader s).1.calls
  reconcile_leader_service-Serves leader s h =
      Leads-value _ (reconcile_leader_service-Leads leader) s tt tt h
