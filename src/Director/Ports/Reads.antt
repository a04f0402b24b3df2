-- ===== src/Director/Ports/Reads.antt =====
-- The effect of resolveServicePorts on the shared state, as calls and sections.
use zen_lead.Base.{Option, none, some, List, [], ◌∷◌}
use zen_lead.Kube.Objects.{Pod, Service, ServicePort, TargetPort, number, named}
use zen_lead.Kube.Errors.{Result, ok, err}
use zen_lead.Director.Reconciler.{Reconciler, pure}
use zen_lead.Director.Sections.{Terms, Does, Does-pure, Does-bind, does_rules}
use zen_lead.Base.Int.{ℤ}
use zen_lead.Director.Ports.{
  port_failure, resolve_target, resolve_ports, resolve_service_ports, resolve_named_port,
}

module _ ⦃r : Reconciler⦄ {terms : Terms} (svc : Service) where
  resolve_target-Does :
      (leader : Option Pod) (t : TargetPort) → Does terms (resolve_target svc leader t)
  unfolding resolve_target port_failure
  resolve_target-Does leader (number n) = Does-pure _
  resolve_target-Does none (named name) = Does-pure _
  resolve_target-Does (some pod) (named name) = at_result (resolve_named_port pod name)
    where
      at_result :
          (q : Result ℤ)
          → Does terms (elim q [ ok n ↦ pure (ok (number n)) | err e ↦ port_failure svc name e ])
      at_result (ok n) = Does-pure _
      at_result (err e) = search does_rules

  resolve_ports-Does :
      (leader : Option Pod) (ps : List ServicePort) → Does terms (resolve_ports svc leader ps)
  unfolding resolve_ports
  resolve_ports-Does leader [] = Does-pure _
  resolve_ports-Does leader (p ∷ ps) =
      Does-bind _ _ (resolve_target-Does leader p.target_port) (elim [
        | err e ↦ Does-pure _
        | ok t ↦
            Does-bind _ _ (resolve_ports-Does leader ps)
              (elim [ err e ↦ Does-pure _ | ok qs ↦ Does-pure _ ])
      ])

  pub resolve_service_ports-Does :
      (leader : Option Pod) → Does terms (resolve_service_ports svc leader)
  unfolding resolve_service_ports
  resolve_service_ports-Does leader = resolve_ports-Does leader svc.ports
