-- ===== src/Director/EndpointSlices/Published.antt =====
-- What a successful reconcileEndpointSlice has written under the leader service's name, in terms of
-- the fields of the pod and of the ports.
use mathlib.Core.Path.{subst}
use zen_lead.Base.{
  ◌≡◌, refl, false, String, Option, none, some, List, [], ◌∷◌, str_eq, arith, Bool-cases, inl, inr,
  if◌then◌else◌,
}
use zen_lead.Base.Int.{ℤ}
use zen_lead.Kube.Objects.{
  Key, Pod, Service, ServicePort, TargetPort, number, named, Endpoint, EndpointPort, EndpointSlice,
}
use zen_lead.Kube.Errors.{Result, ok, err}
use zen_lead.Director.Reconciler.{Calls, Reconciler, State}
use zen_lead.Director.Keeps.{Stable, Leads, Leads-value, Anything}
use zen_lead.Director.Retry.Laws.{RetryLaws}
use zen_lead.Director.Pods.{ready_condition}
use zen_lead.Director.EndpointSlices.{
  cons_port, endpoint_port, endpoint_ports, pod_reference, build_endpoint, address_type, new_slice,
  reconcile_endpoint_slice,
}
use zen_lead.Director.EndpointSlices.Keyed.{
  slice_at, slice_at-Stable, IsAt, ReadsByKey, at_key-IsAt,
}
use zen_lead.Director.EndpointSlices.Writes.{
  Fetched, write_slice-Leads, reconcile_endpoint_slice-leads_to,
}

-- The endpoint has the pod's address and names the pod, if the pod has an address; it is ready as
-- the pod's Ready condition says. Without a pod it has no address and is not ready.
abbrev pub IsEndpointOf : Option Pod → Endpoint → Type 0
IsEndpointOf none e = (e.addresses ≡ []) × (e.target_ref ≡ none) × (e.ready ≡ some false)
IsEndpointOf (some p) e =
    (e.addresses ≡ (if str_eq p.pod_ip "" then [] else p.pod_ip ∷ []))
    × (e.target_ref ≡ (
        if str_eq p.pod_ip ""
        then none
        else some (record { kind = "Pod"; namespace = p.namespace; name = p.name; uid = p.uid })))
    × (e.ready ≡ some (ready_condition p.conditions))

-- The port of the slice has the number of the service port's target, its protocol and its name.
pub record IsPortOf (p : ServicePort) (q : EndpointPort) : Type 0 where
  pub target : ℤ
  pub is_target : p.target_port ≡ number target
  pub same_number : q.port ≡ some target
  pub same_protocol : q.protocol ≡ some p.protocol
  pub same_name : q.name ≡ (if str_eq p.name "" then none else some p.name)

-- One port for each, in order.
abbrev pub ArePortsOf : List ServicePort → List EndpointPort → Type 0
ArePortsOf [] [] = Unit
ArePortsOf [] (q ∷ qs) = ⊥
ArePortsOf (p ∷ ps) [] = ⊥
ArePortsOf (p ∷ ps) (q ∷ qs) = IsPortOf p q × ArePortsOf ps qs

abbrev pub family : ⦃r : Reconciler⦄ → Option Pod → String
family none = "IPv4"
family ⦃r⦄ (some p) =
    if str_eq p.pod_ip ""
    then "IPv4"
    else if r.libraries.parses_as_ipv6 p.pod_ip
    then "IPv6"
    else "IPv4"

-- The slice of the key has one endpoint, that of the pod, and the ports.
pub record Publishes ⦃r : Reconciler⦄ (k : Key) (leader : Option Pod) (ps : List ServicePort)
    (cs : Calls) : Type 0 where
  pub slice : EndpointSlice
  pub is_now : slice_at k cs ≡ some slice
  pub endpoint : Endpoint
  pub alone : slice.endpoints ≡ endpoint ∷ []
  pub of_leader : IsEndpointOf leader endpoint
  pub of_ports : ArePortsOf ps slice.ports
  pub same_family : slice.address_type ≡ family leader

pub Publishes-Stable :
    ⦃r : Reconciler⦄ (k : Key) (leader : Option Pod) (ps : List ServicePort)
    → Stable (Publishes k leader ps)
Publishes-Stable k leader ps c cs h t = record {
  slice = t.slice;
  is_now = slice_at-Stable k t.slice c cs h t.is_now;
  endpoint = t.endpoint;
  alone = t.alone;
  of_leader = t.of_leader;
  of_ports = t.of_ports;
  same_family = t.same_family;
}

build_endpoint-IsEndpointOf : (leader : Option Pod) → IsEndpointOf leader (build_endpoint leader)
unfolding build_endpoint pod_reference
build_endpoint-IsEndpointOf none = (refl, refl, refl)
build_endpoint-IsEndpointOf (some p) = elim (Bool-cases (str_eq p.pod_ip "")) [
  | inl e ↦ rw e (refl, refl, refl)
  | inr e ↦ rw e (refl, refl, refl)
]

abbrev Given : List ServicePort → Result (List EndpointPort) → Type 0
Given ps (ok qs) = ArePortsOf ps qs
Given ps (err e) = Unit

cons_port-Given :
    (p : ServicePort) (ps : List ServicePort) (t : TargetPort) (q : Result (List EndpointPort))
    → p.target_port ≡ t
    → Given ps q
    → Given (p ∷ ps) (cons_port (endpoint_port p t) q)
unfolding endpoint_port
cons_port-Given p ps (named name) q h given = tt
cons_port-Given p ps (number n) (err e) h given = tt
cons_port-Given p ps (number n) (ok qs) h given = (
  record {
    target = n;
    is_target = h;
    same_number = refl;
    same_protocol = refl;
    same_name = elim (Bool-cases (str_eq p.name "")) [ inl e ↦ rw e refl | inr e ↦ rw e refl ];
  },
  given,
)

endpoint_ports-Given : (ps : List ServicePort) → Given ps (endpoint_ports ps)
unfolding endpoint_ports
endpoint_ports-Given [] = tt
endpoint_ports-Given (p ∷ ps) =
    cons_port-Given p ps p.target_port (endpoint_ports ps) refl (endpoint_ports-Given ps)

endpoint_ports-ArePortsOf :
    (ps : List ServicePort) (qs : List EndpointPort) → endpoint_ports ps ≡ ok qs → ArePortsOf ps qs
endpoint_ports-ArePortsOf ps qs h = subst (Given ps) h (endpoint_ports-Given ps)

address_type-family : ⦃r : Reconciler⦄ (leader : Option Pod) → address_type leader ≡ family leader
unfolding address_type
address_type-family none = refl
address_type-family (some p) = ground arith

module _ ⦃r : Reconciler⦄ (laws : RetryLaws r) (svc : Service) (leader_name : String) where
  abbrev key : Key
  key = record { namespace = svc.namespace; name = leader_name }

  module _ (by_key : ReadsByKey key) where
    Fetched-IsAt : (cs : Calls) → Fetched (IsAt key) (r.client.get_slice cs key)
    Fetched-IsAt cs = at_answer (r.client.get_slice cs key) refl
      where
        at_answer :
            (a : Result EndpointSlice) → r.client.get_slice cs key ≡ a → Fetched (IsAt key) a
        at_answer (ok x) e = by_key cs x e
        at_answer (err e) f = tt

    module _ (leader : Option Pod) (ps : List ServicePort) where
      published :
          (ports : List EndpointPort) (x : EndpointSlice) (cs : Calls)
          → endpoint_ports ps ≡ ok ports
          → slice_at key cs ≡ some x
          → x.endpoints ≡ build_endpoint leader ∷ []
          → x.ports ≡ ports
          → x.address_type ≡ address_type leader
          → Publishes key leader ps cs
      published ports x cs found is_now endpoints same_ports same_type = record {
        slice = x;
        is_now = is_now;
        endpoint = build_endpoint leader;
        alone = endpoints;
        of_leader = build_endpoint-IsEndpointOf leader;
        of_ports = rw same_ports (endpoint_ports-ArePortsOf ps ports found);
        same_family = rw same_type (address_type-family leader);
      }

      pub reconcile_endpoint_slice-Leads :
          Leads Anything Anything
            (reconcile_endpoint_slice svc leader_name leader ps)
            (λ u. Publishes key leader ps)
      unfolding new_slice
      reconcile_endpoint_slice-Leads =
          reconcile_endpoint_slice-leads_to laws svc leader_name leader ps (Publishes key leader ps)
            λ ports found.
              write_slice-Leads laws svc leader_name Fetched-IsAt (address_type leader)
                (build_endpoint leader) ports (Publishes-Stable key leader ps)
                (λ uid cs.
                  published ports
                    (new_slice svc leader_name uid (address_type leader) (build_endpoint leader)
                      ports)
                    _ found
                    (rw
                      (at_key-IsAt key
                        (new_slice svc leader_name uid (address_type leader) (build_endpoint leader)
                          ports)
                        (record { same_namespace = refl; same_name = refl }))
                      refl)
                    refl refl refl)
                (λ old at cs.
                  published ports
                    (record old {
                      endpoints = build_endpoint leader ∷ [];
                      ports = ports;
                      address_type = address_type leader;
                    })
                    _ found
                    (rw
                      (at_key-IsAt key
                        (record old {
                          endpoints = build_endpoint leader ∷ [];
                          ports = ports;
                          address_type = address_type leader;
                        })
                        (record { same_namespace = at.same_namespace; same_name = at.same_name }))
                      refl)
                    refl refl refl)

      -- After a successful reconcileEndpointSlice the slice of the leader service's namespace and
      -- name, as last written, has exactly one endpoint. With a leader that has an address it holds
      -- this address and a reference with the pod's namespace, name and UID; with one that has none
      -- it has neither. Its readiness is what the pod's Ready condition says. Without a leader it has no
      -- address and is not ready. The ports of the slice are those of the service, in order,
      -- each with its target's number, its protocol and its name, and the address type is
      -- that of the leader's address. The conditions: retry.Do reports of its function what RetryLaws
      -- asks, and a slice that is read for a key has its namespace and name.
      pub reconcile_endpoint_slice-Publishes :
          (s : State)
          → (reconcile_endpoint_slice svc leader_name leader ps s).0 ≡ ok tt
          → Publishes key leader ps (reconcile_endpoint_slice svc leader_name leader ps s).1.calls
      reconcile_endpoint_slice-Publishes s h =
          Leads-value _ reconcile_endpoint_slice-Leads s tt tt h
