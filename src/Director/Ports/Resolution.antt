-- ===== src/Director/Ports/Resolution.antt =====
-- resolveServicePorts against a description that reads a pod's ports as one list.
use zen_lead.Base.{
  suc, ◌≡◌, refl, ap, ◌↔◌, inl, inr, String, Option, none, some, List, [], ◌∷◌, ◌++◌, arith,
  Option-cases, length, if◌then◌else◌,
}
use zen_lead.Base.Int.{ℤ, is_pos}
use zen_lead.Kube.Objects.{
  Service, ServicePort, TargetPort, number, named, Container, ContainerPort, EndpointPort, Pod,
}
use zen_lead.Kube.Errors.{Result, ok, err}
use zen_lead.Director.Reconciler.{Reconciler, State, ◌>>=◌}
use zen_lead.Director.EndpointSlices.{unless_empty, endpoint_ports}
use zen_lead.Director.Ports.{
  find_port, resolve_in, find_in_containers, resolve_named_port, port_failure, resolve_target,
  resolve_ports, resolve_service_ports,
}

-- The ports of all containers, in order.
abbrev pub all_ports : List Container → List ContainerPort
all_ports [] = []
all_ports (c ∷ cs) = c.ports ++ all_ports cs

-- The first port of the name, if its number is positive.
abbrev positive : Option ℤ → Option ℤ
positive none = none
positive (some n) = if is_pos n then some n else none

unfoldable pub declared_port : String → List ContainerPort → Option ℤ
declared_port name ps = positive (find_port name ps)

-- What a target port stands for: a number for itself, a name for the port that the pod declares.
unfoldable pub target_number : Option Pod → TargetPort → Option ℤ
target_number leader (number n) = some n
target_number none (named name) = none
target_number (some pod) (named name) = declared_port name (all_ports pod.containers)

abbrev with_number : ServicePort → Option ℤ → Option (List ServicePort) → Option (List ServicePort)
with_number p none qs = none
with_number p (some n) none = none
with_number p (some n) (some qs) = some (record p { target_port = number n } ∷ qs)

-- Every port with the number in place of its target port, if all of them have one.
unfoldable pub numbered_ports : Option Pod → List ServicePort → Option (List ServicePort)
numbered_ports leader [] = some []
numbered_ports leader (p ∷ ps) =
    with_number p (target_number leader p.target_port) (numbered_ports leader ps)

abbrev pub value : {A : Type 0} → Result A → Option A
value (ok a) = some a
value (err e) = none

find_port-append :
    (name : String) (ps qs : List ContainerPort)
    → find_port name (ps ++ qs)
      ≡ elim (find_port name ps) [ some n ↦ some n | none ↦ find_port name qs ]
unfolding find_port
find_port-append name [] qs = refl
find_port-append name (p ∷ ps) qs = ground (arith, find_port-append name ps qs)

value-find_in_containers :
    (name : String) (cs : List Container)
    → value (find_in_containers name cs) ≡ declared_port name (all_ports cs)
unfolding find_in_containers declared_port
value-find_in_containers name [] = unfold find_port in refl
value-find_in_containers name (c ∷ cs) =
    ground (arith, find_port-append name c.ports (all_ports cs), value-find_in_containers name cs)

value-resolve_in :
    (cs : List Container) (name : String)
    → value (resolve_in cs name) ≡ declared_port name (all_ports cs)
unfolding declared_port find_port
value-resolve_in [] name = refl
value-resolve_in (c ∷ cs) name = value-find_in_containers name (c ∷ cs)

-- A named port resolves to the number of the first port of that name over all containers, and to
-- nothing if there is none or its number is not positive.
pub value-resolve_named_port :
    (pod : Pod) (name : String)
    → value (resolve_named_port pod name) ≡ declared_port name (all_ports pod.containers)
unfolding resolve_named_port
value-resolve_named_port pod name = value-resolve_in pod.containers name

module _ ⦃r : Reconciler⦄ (svc : Service) where
  value-resolve_target :
      (leader : Option Pod) (t : TargetPort) (s : State)
      → value (resolve_target svc leader t s).0
        ≡ elim (target_number leader t) [ some n ↦ some (number n) | none ↦ none ]
  unfolding resolve_target target_number port_failure ◌>>=◌
  value-resolve_target leader (number n) s = refl
  value-resolve_target none (named name) s = refl
  value-resolve_target (some pod) (named name) s = ground (arith, value-resolve_named_port pod name)

  value-resolve_ports :
      (leader : Option Pod) (ps : List ServicePort) (s : State)
      → value (resolve_ports svc leader ps s).0 ≡ numbered_ports leader ps
  unfolding resolve_ports numbered_ports ◌>>=◌
  value-resolve_ports leader [] s = refl
  value-resolve_ports leader (p ∷ ps) s = ground (
    arith,
    value-resolve_target leader p.target_port s,
    value-resolve_ports leader ps (resolve_target svc leader p.target_port s).1,
  )

  pub value-resolve_service_ports :
      (leader : Option Pod) (s : State)
      → value (resolve_service_ports svc leader s).0 ≡ numbered_ports leader svc.ports
  unfolding resolve_service_ports
  value-resolve_service_ports leader s = value-resolve_ports leader svc.ports s

  -- The resolution returns exactly the ports with their numbers in place, nothing else changed,
  -- and fails exactly if one of them has no number.
  pub resolve_service_ports_iff :
      (leader : Option Pod) (qs : List ServicePort) (s : State)
      → ((resolve_service_ports svc leader s).0 ≡ ok qs)
        ↔ (numbered_ports leader svc.ports ≡ some qs)
  unfolding resolve_service_ports
  resolve_service_ports_iff leader qs s = (
    λ h. ground (arith, value-resolve_ports leader svc.ports s),
    λ h. ground (arith, value-resolve_ports leader svc.ports s),
  )

-- Ports that were resolved always have endpoint ports, one for each.
pub endpoint_ports-numbered_ports :
    (leader : Option Pod) (ps qs : List ServicePort)
    → numbered_ports leader ps ≡ some qs
    → (es : List EndpointPort) × (endpoint_ports qs ≡ ok es) × (length es ≡ length ps)
unfolding numbered_ports endpoint_ports
endpoint_ports-numbered_ports leader [] qs h = ([], ground arith, refl)
endpoint_ports-numbered_ports leader (p ∷ ps) qs h =
    elim (Option-cases (target_number leader p.target_port)) [
      | inl e ↦ absurd (ground arith)
      | inr (n, e) ↦ elim (Option-cases (numbered_ports leader ps)) [
        | inl f ↦ absurd (ground arith)
        | inr (rest, f) ↦
            let (es, g, l) = endpoint_ports-numbered_ports leader ps rest f in
            (
              record { name = unless_empty p.name; port = some n; protocol = some p.protocol } ∷ es,
              ground arith,
              ap suc l,
            )
      ]
    ]
