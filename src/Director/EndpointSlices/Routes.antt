-- ===== src/Director/EndpointSlices/Routes.antt =====
-- The slice that the calls have left in the cluster, and what it routes to.
use zen_lead.Base.{◌≡◌, false, String, Option, none, some, List, [], ◌∷◌, arith, if◌then◌else◌}
use zen_lead.Kube.Objects.{Pod, ServicePort, Endpoint, EndpointPort, EndpointSlice}
use zen_lead.Kube.Errors.{ok}
use zen_lead.Director.Reconciler.{Call, create_slice, patch_slice, delete_slice, Calls, Reconciler}
use zen_lead.Director.Keeps.{is_write, Stable}
use zen_lead.Director.EndpointSlices.{endpoint_ports, build_endpoint, address_type}

-- The slice after a call, given what it was before: a rejected call changes nothing.
abbrev pub after_call : Call → Option EndpointSlice → Option EndpointSlice
after_call (create_slice x accepted) before = if accepted then some x else before
after_call (patch_slice old x accepted) before = if accepted then some x else before
after_call (delete_slice x accepted) before = if accepted then none else before
after_call _ before = before

-- The slice as the calls left it: what was last created or patched, and nothing after a deletion.
abbrev pub slice_now : Calls → Option EndpointSlice
slice_now [] = none
slice_now (c ∷ cs) = after_call c (slice_now cs)

-- The calls have left a slice with one endpoint, this one, and with these ports and address type.
pub record Routes (endpoint : Endpoint) (ports : List EndpointPort) (type : String) (cs : Calls)
    : Type 0 where
  pub slice : EndpointSlice
  pub is_now : slice_now cs ≡ some slice
  pub endpoints : slice.endpoints ≡ endpoint ∷ []
  pub same_ports : slice.ports ≡ ports
  pub same_type : slice.address_type ≡ type

after_quiet : (c : Call) (o : Option EndpointSlice) → is_write c ≡ false → after_call c o ≡ o
after_quiet c o h = ground arith

pub slice_now-Stable : (x : EndpointSlice) → Stable (λ cs. slice_now cs ≡ some x)
slice_now-Stable x c cs h e = ground (arith, after_quiet c (slice_now cs) h, e)

pub Routes-Stable :
    (e : Endpoint) (ports : List EndpointPort) (type : String) → Stable (Routes e ports type)
Routes-Stable e ports type c cs h t = record {
  slice = t.slice;
  is_now = slice_now-Stable t.slice c cs h t.is_now;
  endpoints = t.endpoints;
  same_ports = t.same_ports;
  same_type = t.same_type;
}

-- The calls have left a slice with the one endpoint of this leader, and these ports.
pub record RoutesTo ⦃r : Reconciler⦄ (leader : Option Pod) (ps : List ServicePort) (cs : Calls)
    : Type 0 where
  pub ports : List EndpointPort
  pub resolved : endpoint_ports ps ≡ ok ports
  pub routes : Routes (build_endpoint leader) ports (address_type leader) cs

pub RoutesTo-Stable :
    ⦃r : Reconciler⦄ (leader : Option Pod) (ps : List ServicePort) → Stable (RoutesTo leader ps)
RoutesTo-Stable leader ps c cs h t = record {
  ports = t.ports;
  resolved = t.resolved;
  routes = Routes-Stable (build_endpoint leader) t.ports (address_type leader) c cs h t.routes;
}
