-- ===== src/LeaderGroup/Leases.antt =====
-- leadergroup_controller.go: the Lease of a group: its name, how it is made, and how an existing
-- one is claimed.
pub mod Claims
use zen_lead.Base.{
  ℕ, zero, suc, ◌/◌, String, Bool, true, false, not, ◌||◌, Option, none, some, List, [], ◌∷◌,
  str_eq, if◌then◌else◌,
}
use zen_lead.Base.Text.{append}
use zen_lead.Base.Int.{ℤ, pos, negsuc}
use zen_lead.Base.Dict.{Dict, insert, get}
use zen_lead.Kube.Objects.{OwnerReference}
use zen_lead.Kube.Errors.{Result, ok}
use zen_lead.LeaderGroup.Objects.{LeaseSettings, LeaderGroup, Lease}
use zen_lead.LeaderGroup.Calls.{GroupClient, G, ◌>>=◌, pure, send_update_lease}

abbrev pub lease_managed_by : String
lease_managed_by = "app.kubernetes.io/managed-by"

abbrev pub group_label : String
group_label = "leadership.kube-zen.io/leadergroup"

-- deriveLeaseName
unfoldable pub derive_lease_name : String → String
derive_lease_name component = append component "-lease"

unfoldable pub group_owner : LeaderGroup → OwnerReference
group_owner g = record {
  api_version = g.api_version;
  kind = g.kind;
  name = g.name;
  uid = g.uid;
  controller = some true;
}

minus : ℕ → ℤ
minus zero = pos 0
minus (suc n) = negsuc n

-- int32(d.Seconds()), toward zero. Go takes it through a float64, which is exact for durations
-- below 97 days.
unfoldable pub whole_seconds : ℤ → ℤ
unfolding minus
whole_seconds (pos n) = pos (n / 1000000000)
whole_seconds (negsuc n) = minus (suc n / 1000000000)

abbrev seconds_of : Option ℤ → Option ℤ
seconds_of none = none
seconds_of (some d) = some (whole_seconds d)

abbrev setting : (LeaseSettings → Option ℤ) → Option LeaseSettings → Option ℤ
setting field none = none
setting field (some l) = seconds_of (field l)

-- buildLease: the retry period goes into LeaseTransitions
unfoldable pub build_lease : LeaderGroup → String → Lease
build_lease g lease_name = record {
  namespace = g.namespace;
  name = lease_name;
  resource_version = "";
  labels = (lease_managed_by, "zen-lead") ∷ (group_label, g.name) ∷ [];
  owner_references = group_owner g ∷ [];
  holder_identity = none;
  lease_duration_seconds = setting (λ l. l.duration) g.lease;
  renew_time = none;
  lease_transitions = setting (λ l. l.retry_period) g.lease;
}

abbrev pub has_owner : List OwnerReference → Bool
has_owner [] = false
has_owner (x ∷ xs) = true

-- needsUpdate
unfoldable pub needs_update : LeaderGroup → Lease → Bool
needs_update g x =
    not (has_owner x.owner_references)
    || not (str_eq (get lease_managed_by x.labels) "zen-lead")
    || not (str_eq (get group_label x.labels) g.name)

abbrev put_unless : String → String → Dict String → Dict String
put_unless k v m = if not (str_eq (get k m) v) then insert k v m else m

-- the owner and the labels that the update writes
unfoldable pub claim : LeaderGroup → Lease → Lease
claim g x = record x {
  owner_references =
      if has_owner x.owner_references then x.owner_references else group_owner g ∷ [];
  labels = put_unless group_label g.name (put_unless lease_managed_by "zen-lead" x.labels);
}

-- updateLeaseMetadata, and the lease as it is after it
unfoldable pub update_lease_metadata : ⦃c : GroupClient⦄ → Lease → LeaderGroup → G (Result Lease)
update_lease_metadata x g = if needs_update g x then send_update_lease (claim g x) else pure (ok x)
