-- ===== src/Tests/Leases.antt =====
-- The LeaderGroup controller and the leader client on concrete leases.
use zen_lead.Base.{◌≡◌, refl, ◌↔◌, ◌⊎◌, true, none, some, [], ◌∷◌, str_eq, if◌then◌else◌, length}
use zen_lead.Base.Int.{pos}
use zen_lead.Base.Dict.{lookup}
use zen_lead.Kube.Errors.{ok, err, not_found}
use zen_lead.LeaderGroup.Objects.{LeaderGroupStatus, LeaderGroup, Lease}
use zen_lead.LeaderGroup.Calls.{GroupClient, read_time, update_status}
use zen_lead.LeaderGroup.Leases.{build_lease}
use zen_lead.LeaderGroup.Status.{status_from_lease, status_equal, update_status_from_lease}
use zen_lead.LeaderGroup.Status.Observed.{
  stored_status, update_status_from_lease-stored_status, status_equal_iff,
}
use zen_lead.LeaderGroup.Reconcile.{reconcile_found}
use zen_lead.LeaderGroup.Reconcile.Writes.{OwnWrites, reconcile_found-OwnWrites}
use zen_lead.LeaderClient.{
  Surroundings, Client, is_leader, is_leader_with_namespace, trim_space, ask_lease, ask_own,
  ask_valid, check_cache, holds, own_namespace,
}
use zen_lead.LeaderClient.Answers.{Holds, CachedLeader, is_leader_sound}

abbrev no_status : LeaderGroupStatus
no_status = record {
  holder_identity = "";
  renew_time = none;
  lease_duration_seconds = none;
  fencing_token = none;
  observed_lease_resource_version = "";
  conditions = [];
}

abbrev worker : LeaderGroup
worker = record {
  api_version = "leadership.kube-zen.io/v1alpha1";
  kind = "LeaderGroup";
  namespace = "shop";
  name = "worker";
  uid = "uid-g";
  deletion_timestamp = none;
  group_type = "controller";
  component = "worker";
  lease = some (record {
    duration = some (pos 15000000000);
    renew_deadline = none;
    retry_period = some (pos 2000000000);
  });
  status = no_status;
}

abbrev held : Lease
held = record (build_lease worker "worker-lease") {
  holder_identity = some "worker-0";
  resource_version = "7";
}

abbrev no_leases : GroupClient
no_leases = record {
  get_group = λ cs k. ok worker;
  get_lease = λ cs k. err not_found;
  create_lease = λ cs x. ok x;
  update_lease = λ cs x. ok x;
  delete_lease = λ cs x. ok tt;
  update_status = λ cs g. ok tt;
  now = λ cs. length cs;
}

-- renewed one and a half seconds after the epoch
abbrev renewed : Lease
renewed = record held { renew_time = some 1500000000 }

abbrev reported : LeaderGroup
reported = record worker { status = stored_status (status_from_lease 3 renewed no_status) }

update_status_from_lease-stored_status_example :
    (update_status_from_lease ⦃c = no_leases⦄ reported renewed []).1
    ≡ update_status (record reported { status = status_from_lease 0 renewed reported.status }) true
      ∷ read_time
      ∷ []
update_status_from_lease-stored_status_example =
    update_status_from_lease-stored_status ⦃client = no_leases⦄ reported renewed no_status 3
      1500000000 [] refl refl

abbrev other_token : LeaderGroupStatus
other_token = record no_status { fencing_token = some (pos 4) }

status_equal_iff_example : (status_equal no_status other_token ≡ true) ↔ (
    (no_status.holder_identity ≡ other_token.holder_identity)
    × (no_status.observed_lease_resource_version ≡ other_token.observed_lease_resource_version)
    × (no_status.renew_time ≡ other_token.renew_time)
    × (no_status.lease_duration_seconds ≡ other_token.lease_duration_seconds))
status_equal_iff_example = status_equal_iff no_status other_token

reconcile_found-OwnWrites_example :
    OwnWrites ⦃c = no_leases⦄ worker (reconcile_found ⦃c = no_leases⦄ worker []).1
reconcile_found-OwnWrites_example = reconcile_found-OwnWrites ⦃c = no_leases⦄ worker [] refl tt

abbrev pod_in_shop : Surroundings
pod_in_shop = record {
  pod_namespace = " shop ";
  namespace_file = err not_found;
  get_lease = λ ls k. if str_eq k.namespace "shop" then ok held else err not_found;
  now = λ ls. length ls;
  is_dns1123_label = λ s. true;
  is_dns1123_subdomain = λ s. true;
}

abbrev first_worker : Client
first_worker = record { pod_name = "worker-0"; pod_uid = "u0"; cache = []; lookups = [] }

leads : (is_leader ⦃w = pod_in_shop⦄ "worker-lease" first_worker).0 ≡ ok true
unfolding is_leader check_cache lookup ask_own own_namespace ask_lease trim_space holds
leads = refl

is_leader_sound_example :
    CachedLeader ⦃w = pod_in_shop⦄ first_worker "worker-lease"
    ⊎ Holds ⦃w = pod_in_shop⦄ first_worker "worker-lease"
is_leader_sound_example = is_leader_sound ⦃w = pod_in_shop⦄ "worker-lease" first_worker leads

leads_in_shop :
    (is_leader_with_namespace ⦃w = pod_in_shop⦄ "worker-lease" "shop" first_worker).0 ≡ ok true
unfolding is_leader_with_namespace ask_valid check_cache lookup ask_lease trim_space holds
leads_in_shop = refl
