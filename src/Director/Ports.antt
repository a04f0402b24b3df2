-- ===== src/Director/Ports.antt =====
-- service_director.go: named target ports are resolved against the leader pod's containers.
pub mod Reads
pub mod Resolution
use zen_lead.Base.{
  ℕ, String, Bool, true, false, not, Option, none, some, List, [], ◌∷◌, str_eq, if◌then◌else◌,
}
use zen_lead.Base.Int.{ℤ, is_pos}
use zen_lead.Kube.Objects.{
  Service, ServicePort, TargetPort, number, named, Container, ContainerPort, Pod,
}
use zen_lead.Kube.Errors.{Error, Result, ok, err, other, wrap}
use zen_lead.Metrics.{record_port_resolution_failure}
use zen_lead.Director.Reconciler.{Reconciler, M, ◌>>=◌, ◌>>◌, pure}
use zen_lead.Director.Calls.{record_event, record_metric}

-- the first port of this name in a container
unfoldable pub find_port : String → List ContainerPort → Option ℤ
find_port name [] = none
find_port name (p ∷ ps) = if str_eq p.name name then some p.container_port else find_port name ps

abbrev checked_port : ℤ → Result ℤ
checked_port n = if is_pos n then ok n else err (other "invalid port number")

-- the loops over the containers and their ports
unfoldable pub find_in_containers : String → List Container → Result ℤ
find_in_containers name [] = err (other "named port not found in pod")
find_in_containers name (c ∷ cs) =
    let rest = find_in_containers name cs in
    elim (find_port name c.ports) [ some n ↦ checked_port n | none ↦ rest ]

abbrev resolve_in : List Container → String → Result ℤ
resolve_in [] name = err (other "named port not found: pod has no containers")
resolve_in (c ∷ cs) name = find_in_containers name (c ∷ cs)

-- resolveNamedPort, of a pod that is not nil
unfoldable pub resolve_named_port : Pod → String → Result ℤ
resolve_named_port pod name = resolve_in pod.containers name

module _ ⦃r : Reconciler⦄ (svc : Service) where
  unfoldable pub port_failure : String → Error → M (Result TargetPort)
  port_failure name e = do
    record_event "Warning" "NamedPortResolutionFailed"
    record_metric (record_port_resolution_failure svc.namespace svc.name name)
    pure (err (wrap "failed to resolve named port" e))

  -- the target port of one service port
  unfoldable pub resolve_target : Option Pod → TargetPort → M (Result TargetPort)
  resolve_target leader (number n) = pure (ok (number n))
  resolve_target none (named name) =
      pure (err (other "cannot resolve named port: no leader pod available"))
  resolve_target (some pod) (named name) = elim (resolve_named_port pod name) [
    | ok n ↦ pure (ok (number n))
    | err e ↦ port_failure name e
  ]

  -- the loop of resolveServicePorts; `resolved` holds the ports so far
  unfoldable pub resolve_ports : Option Pod → List ServicePort → M (Result (List ServicePort))
  resolve_ports leader [] = pure (ok [])
  resolve_ports leader (p ∷ ps) = do
    target ← resolve_target leader p.target_port
    elim target [
      | err e ↦ pure (err e)
      | ok t ↦ (do
        rest ← resolve_ports leader ps
        elim rest [ err e ↦ pure (err e) | ok qs ↦ pure (ok (record p { target_port = t } ∷ qs)) ])
    ]

  -- resolveServicePorts
  unfoldable pub resolve_service_ports : Option Pod → M (Result (List ServicePort))
  resolve_service_ports leader = resolve_ports leader svc.ports
