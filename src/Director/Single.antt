-- ===== src/Director/Single.antt =====
-- What a write may be for traffic to have a single target: about the services and slices that
-- service_director.go writes.
pub mod Slices
pub mod Services
pub mod Runs
use zen_lead.Base.{
  ℕ, ◌≡◌, ◌≤◌, refl, Bool, true, false, not, ◌&&◌, String, Option, none, some, List, [], ◌∷◌, arith,
  length, All, str_eq, if◌then◌else◌,
}
use zen_lead.Base.Dict.{Dict, lookup}
use zen_lead.Kube.Objects.{Key, Pod, Service, ServicePort, Endpoint, EndpointPort, EndpointSlice}
use zen_lead.Kube.Errors.{Error, Result, ok, err, is_ok, is_not_found}
use zen_lead.Director.Reconciler.{
  Call, create_service, delete_service, patch_service, create_slice, delete_slice, patch_slice,
  Calls, Reconciler, State, M, ◌>>=◌, ◌>>◌, pure,
}
use zen_lead.Director.Calls.{
  now, send_create_service, send_patch_service, send_delete_service, send_create_slice,
  send_patch_slice, send_delete_slice,
}
use zen_lead.Director.Keeps.{
  is_write, Stable, Keeps, Keeps-pure, Keeps-bind, Keeps-if, Keeps-now, Keeps-record_event,
  Keeps-record_metric, keeps_rules,
}
use zen_lead.Director.Retry.Laws.{RetryLaws, Keeps-retry}
use zen_lead.Director.Naming.{managed_by_label, managed_by_value, source_service_label}
use zen_lead.Director.Metadata.Labels.{lookup-leader_labels}
use zen_lead.Director.EndpointSlices.{build_endpoint}

-- One endpoint, with at most one address.
pub record HasOneTarget (x : EndpointSlice) : Type 0 where
  pub endpoint : Endpoint
  pub only : x.endpoints ≡ endpoint ∷ []
  pub address : length endpoint.addresses ≤ 1

-- What a write may be. A service that is created has no selector and is marked with its manager;
-- a patch leaves a service without a selector; a slice that is written has one target.
abbrev pub IsSingle : Call → Type 0
IsSingle (create_service x b) =
    (x.selector ≡ []) × (lookup managed_by_label x.labels ≡ some managed_by_value)
IsSingle (patch_service old x b) = x.selector ≡ []
IsSingle (create_slice x b) = HasOneTarget x
IsSingle (patch_slice old x b) = HasOneTarget x
IsSingle _ = Unit

abbrev pub SingleActive : Calls → Type 0
SingleActive = All IsSingle

pub quiet-IsSingle : (c : Call) → is_write c ≡ false → IsSingle c
quiet-IsSingle (create_service x b) q = cc
quiet-IsSingle (patch_service old x b) q = cc
quiet-IsSingle (create_slice x b) q = cc
quiet-IsSingle (patch_slice old x b) q = cc
quiet-IsSingle _ q = tt

-- The endpoint of a leader has at most one address.
pub build_endpoint_address : (leader : Option Pod) → length (build_endpoint leader).addresses ≤ 1
unfolding build_endpoint
build_endpoint_address none = omega arith
build_endpoint_address (some p) = ground arith
