-- ===== src/LeaderGroup/Leases/Claims.antt =====
-- When updateLeaseMetadata leaves a Lease alone: it has some owner and the labels of the group.
use zen_lead.Base.{◌≡◌, refl, true, String, arith, str_eq, eq_iff, eq_refl, if◌then◌else◌}
use zen_lead.Base.Dict.{Dict, lookup, get, lookup-insert}
use zen_lead.Kube.Errors.{ok}
use zen_lead.LeaderGroup.Objects.{LeaderGroup, Lease}
use zen_lead.LeaderGroup.Calls.{GroupClient, GroupCalls, ◌>>=◌}
use zen_lead.LeaderGroup.Leases.{
  lease_managed_by, group_label, has_owner, needs_update, put_unless, claim, update_lease_metadata,
  build_lease,
}

-- The lease has an owner, and its labels name zen-lead and the group.
pub record IsClaimed (g : LeaderGroup) (x : Lease) : Type 0 where
  pub owned : has_owner x.owner_references ≡ true
  pub managed : get lease_managed_by x.labels ≡ "zen-lead"
  pub named : get group_label x.labels ≡ g.name

get-put_unless :
    (k j v : String) (m : Dict String)
    → get j (put_unless k v m) ≡ (if str_eq k j then v else get j m)
get-put_unless k j v m = ground (arith, lookup-insert k j v m, eq_iff k j, eq_iff (get k m) v)

-- What the update writes has an owner and the labels of the group, whatever was there.
pub claim-IsClaimed : (g : LeaderGroup) (x : Lease) → IsClaimed g (claim g x)
unfolding claim
claim-IsClaimed g x = record {
  owned = ground arith;
  managed =
      rw
        (
          get-put_unless group_label lease_managed_by g.name
              (put_unless lease_managed_by "zen-lead" x.labels),
          get-put_unless lease_managed_by lease_managed_by "zen-lead" x.labels,
        )
        refl;
  named =
      rw
        (get-put_unless group_label group_label g.name
          (put_unless lease_managed_by "zen-lead" x.labels))
        refl;
}

-- A lease that has an owner, of whatever group, and the labels is left alone: no call is made.
pub update_lease_metadata-IsClaimed :
    ⦃c : GroupClient⦄ (g : LeaderGroup) (x : Lease) (cs : GroupCalls)
    → IsClaimed g x
    → update_lease_metadata x g cs ≡ (ok x, cs)
unfolding update_lease_metadata needs_update ◌>>=◌
update_lease_metadata-IsClaimed g x cs h = rw (h.owned, h.managed, h.named, eq_refl g.name) refl

pub build_lease-IsClaimed :
    (g : LeaderGroup) (lease_name : String) → IsClaimed g (build_lease g lease_name)
unfolding build_lease lookup
build_lease-IsClaimed g lease_name = record { owned = refl; managed = refl; named = refl }
