-- ===== src/LeaderGroup/Objects.antt =====
-- LeaderGroup of pkg/apis/leadership.kube-zen.io/v1alpha1/leadergroup_types.go, and Lease of
-- coordination.k8s.io, with the fields that the controller reads or writes. Times and durations
-- are nanoseconds.
use zen_lead.Base.{ℕ, String, Option, List}
use zen_lead.Base.Int.{ℤ}
use zen_lead.Base.Dict.{Dict}
use zen_lead.Kube.Objects.{OwnerReference}

pub record LeaseSettings : Type 0 where
  pub duration : Option ℤ
  pub renew_deadline : Option ℤ
  pub retry_period : Option ℤ

-- metav1.Condition
pub record Condition : Type 0 where
  pub condition_type : String
  pub status : String
  pub reason : String
  pub message : String
  pub last_transition_time : ℕ

pub record LeaderGroupStatus : Type 0 where
  pub holder_identity : String
  pub renew_time : Option ℕ
  pub lease_duration_seconds : Option ℤ
  pub fencing_token : Option ℤ
  pub observed_lease_resource_version : String
  pub conditions : List Condition

pub record LeaderGroup : Type 0 where
  pub api_version : String
  pub kind : String
  pub namespace : String
  pub name : String
  pub uid : String
  pub deletion_timestamp : Option ℕ
  pub group_type : String
  pub component : String
  pub lease : Option LeaseSettings
  pub status : LeaderGroupStatus

-- coordinationv1.Lease
pub record Lease : Type 0 where
  pub namespace : String
  pub name : String
  pub resource_version : String
  pub labels : Dict String
  pub owner_references : List OwnerReference
  pub holder_identity : Option String
  pub lease_duration_seconds : Option ℤ
  pub renew_time : Option ℕ
  pub lease_transitions : Option ℤ
