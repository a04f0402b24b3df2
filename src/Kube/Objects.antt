-- ===== src/Kube/Objects.antt =====
-- The Kubernetes API objects, with the fields that the source reads or writes. Times are
-- nanoseconds since the epoch; an optional pointer is an `Option`.
use zen_lead.Base.{ℕ, String, Bool, Option, List}
use zen_lead.Base.Int.{ℤ}
use zen_lead.Base.Dict.{Dict}

-- types.NamespacedName
pub record Key : Type 0 where
  pub namespace : String
  pub name : String

pub record OwnerReference : Type 0 where
  pub api_version : String
  pub kind : String
  pub name : String
  pub uid : String
  pub controller : Option Bool

-- intstr.IntOrString
pub data TargetPort : Type 0 where
  number : ℤ → TargetPort
  named : String → TargetPort

pub record ServicePort : Type 0 where
  pub name : String
  pub protocol : String
  pub port : ℤ
  pub node_port : ℤ
  pub target_port : TargetPort

pub record Service : Type 0 where
  pub namespace : String
  pub name : String
  pub uid : String
  pub labels : Dict String
  pub annotations : Dict String
  pub owner_references : List OwnerReference
  pub selector : Dict String
  pub ports : List ServicePort
  pub service_type : String
  pub cluster_ip : String

pub record ContainerPort : Type 0 where
  pub name : String
  pub container_port : ℤ

pub record Container : Type 0 where
  pub name : String
  pub ports : List ContainerPort

pub record PodCondition : Type 0 where
  pub condition_type : String
  pub status : String
  pub last_transition_time : ℕ

pub record Pod : Type 0 where
  pub namespace : String
  pub name : String
  pub uid : String
  pub labels : Dict String
  pub creation_timestamp : ℕ
  pub deletion_timestamp : Option ℕ
  pub node_name : String
  pub containers : List Container
  pub phase : String
  pub conditions : List PodCondition
  pub pod_ip : String

-- corev1.ObjectReference
pub record ObjectReference : Type 0 where
  pub kind : String
  pub namespace : String
  pub name : String
  pub uid : String

pub record EndpointPort : Type 0 where
  pub name : Option String
  pub port : Option ℤ
  pub protocol : Option String

pub record Endpoint : Type 0 where
  pub addresses : List String
  pub ready : Option Bool
  pub node_name : Option String
  pub target_ref : Option ObjectReference

pub record EndpointSlice : Type 0 where
  pub namespace : String
  pub name : String
  pub labels : Dict String
  pub owner_references : List OwnerReference
  pub address_type : String
  pub endpoints : List Endpoint
  pub ports : List EndpointPort

-- client.Object, as far as the watches tell objects apart
pub data Object : Type 0 where
  a_pod : Pod → Object
  a_slice : EndpointSlice → Object
  a_service : Service → Object
  another : Object
