-- ===== src/LeaderGroup/Reconcile/Writes.antt =====
-- What the LeaderGroup controller writes to leases.
use zen_lead.Base.{
  ◌≡◌, ◌≢◌, ◌⊎◌, refl, true, false, String, List, [], some, ◌∷◌, str_eq, Bool-cases, inl, inr,
  is_some, if◌then◌else◌,
}
use zen_lead.Base.Text.{append}
use zen_lead.Base.Dict.{Dict, get}
use zen_lead.Kube.Objects.{OwnerReference}
use zen_lead.Kube.Errors.{Result, ok, err, is_not_found}
use zen_lead.LeaderGroup.Objects.{LeaderGroupStatus, LeaderGroup, Lease}
use zen_lead.LeaderGroup.Calls.{
  GroupCall, get_lease, create_lease, update_lease, delete_lease, read_time, GroupCalls,
  GroupClient, ◌>>=◌, now, fetch_lease, send_create_lease, send_update_lease, send_update_status,
}
use zen_lead.LeaderGroup.Leases.{
  lease_managed_by, group_label, group_owner, has_owner, claim, derive_lease_name, needs_update,
  build_lease, update_lease_metadata,
}
use zen_lead.LeaderGroup.Leases.Claims.{claim-IsClaimed, build_lease-IsClaimed}
use zen_lead.LeaderGroup.Status.{status_equal, write_status, update_status_from_lease}
use zen_lead.LeaderGroup.Reconcile.{
  lease_key, report, create_new_lease, ensure_lease, reconcile_controller_type, reconcile_found,
}

-- The group alone is the owner, as the controller.
pub record OwnedBy (g : LeaderGroup) (owners : List OwnerReference) : Type 0 where
  pub owner : OwnerReference
  pub alone : owners ≡ owner ∷ []
  pub same_api_version : owner.api_version ≡ g.api_version
  pub same_kind : owner.kind ≡ g.kind
  pub same_name : owner.name ≡ g.name
  pub same_uid : owner.uid ≡ g.uid
  pub controls : owner.controller ≡ some true

-- The labels of a lease that name zen-lead and the group.
pub record Labelled (g : LeaderGroup) (labels : Dict String) : Type 0 where
  pub managed : get lease_managed_by labels ≡ "zen-lead"
  pub named : get group_label labels ≡ g.name

-- A lease of the group's lease name and namespace that only the group owns.
pub record Created (g : LeaderGroup) (x : Lease) : Type 0 where
  pub same_name : x.name ≡ append g.component "-lease"
  pub same_namespace : x.namespace ≡ g.namespace
  pub labels : Labelled g x.labels
  pub owners : OwnedBy g x.owner_references

-- A lease that was read for the group's lease name and namespace just before, after these calls,
-- with the group's labels: it has the owners that it had, and the group as its owner if it had none.
pub record Claimed ⦃c : GroupClient⦄ (g : LeaderGroup) (earlier : GroupCalls) (x : Lease)
    : Type 0 where
  pub before : GroupCalls
  pub read : earlier ≡ get_lease (lease_key g) ∷ before
  pub found : Lease
  pub answered : c.get_lease before (lease_key g) ≡ ok found
  pub same_name : x.name ≡ found.name
  pub same_namespace : x.namespace ≡ found.namespace
  pub same_version : x.resource_version ≡ found.resource_version
  pub labels : Labelled g x.labels
  pub owners :
      ((found.owner_references ≡ []) × OwnedBy g x.owner_references)
      ⊎ ((found.owner_references ≢ []) × (x.owner_references ≡ found.owner_references))

-- What a live group may do to leases: it creates and claims its own, and it deletes none.
abbrev pub OwnWrite : ⦃c : GroupClient⦄ → LeaderGroup → GroupCalls → GroupCall → Type 0
OwnWrite g earlier (create_lease x b) = Created g x
OwnWrite g earlier (update_lease x b) = Claimed g earlier x
OwnWrite g earlier (delete_lease x b) = ⊥
OwnWrite g earlier _ = Unit

-- Every call is of this kind, given the calls before it.
abbrev pub OwnWrites : ⦃c : GroupClient⦄ → LeaderGroup → GroupCalls → Type 0
OwnWrites g [] = Unit
OwnWrites g (call ∷ earlier) = OwnWrite g earlier call × OwnWrites g earlier

module _ ⦃c : GroupClient⦄ (g : LeaderGroup) where
  group_owner-OwnedBy : OwnedBy g (group_owner g ∷ [])
  unfolding group_owner
  group_owner-OwnedBy = record {
    owner = group_owner g;
    alone = refl;
    same_api_version = refl;
    same_kind = refl;
    same_name = refl;
    same_uid = refl;
    controls = refl;
  }

  build_lease-Created : Created g (build_lease g (derive_lease_name g.component))
  unfolding build_lease derive_lease_name
  build_lease-Created =
      let claimed = build_lease-IsClaimed g (derive_lease_name g.component) in
      record {
        same_name = refl;
        same_namespace = refl;
        labels = record { managed = claimed.managed; named = claimed.named };
        owners = group_owner-OwnedBy;
      }

  module _ (before : GroupCalls) where
    claim-Claimed :
        (x : Lease)
        → c.get_lease before (lease_key g) ≡ ok x
        → Claimed g (get_lease (lease_key g) ∷ before) (claim g x)
    unfolding claim
    claim-Claimed x answered = record {
      before = before;
      read = refl;
      found = x;
      answered = answered;
      same_name = refl;
      same_namespace = refl;
      same_version = refl;
      labels =
          let claimed = claim-IsClaimed g x in
          record { managed = claimed.managed; named = claimed.named };
      owners = at_owners x.owner_references;
    }
      where
        at_owners :
            (os : List OwnerReference)
            → ((os ≡ []) × OwnedBy g (if has_owner os then os else group_owner g ∷ []))
              ⊎ ((os ≢ []) × ((if has_owner os then os else group_owner g ∷ []) ≡ os))
        at_owners [] = inl (refl, group_owner-OwnedBy)
        at_owners (o ∷ os) = inr ((λ e. cc e), refl)

    -- after the read of the lease
    update_lease_metadata-OwnWrites :
        (x : Lease)
        → c.get_lease before (lease_key g) ≡ ok x
        → OwnWrites g before
        → OwnWrites g (update_lease_metadata x g (get_lease (lease_key g) ∷ before)).1
    unfolding update_lease_metadata send_update_lease ◌>>=◌
    update_lease_metadata-OwnWrites x answered h = elim (Bool-cases (needs_update g x)) [
      | inl e ↦ rw e (claim-Claimed x answered, (tt, h))
      | inr e ↦ rw e (tt, h)
    ]

  create_new_lease-OwnWrites :
      (cs : GroupCalls) → OwnWrites g cs → OwnWrites g (create_new_lease g cs).1
  unfolding create_new_lease send_create_lease ◌>>=◌
  create_new_lease-OwnWrites cs h = (build_lease-Created, h)

  ensure_lease-OwnWrites :
      (before : GroupCalls) (q : Result Lease)
      → c.get_lease before (lease_key g) ≡ q
      → OwnWrites g before
      → OwnWrites g (ensure_lease g q (get_lease (lease_key g) ∷ before)).1
  unfolding ensure_lease ◌>>=◌
  ensure_lease-OwnWrites before (ok x) answered h =
      update_lease_metadata-OwnWrites before x answered h
  ensure_lease-OwnWrites before (err e) answered h = elim (Bool-cases (is_not_found e)) [
    | inl f ↦ rw f (create_new_lease-OwnWrites (get_lease (lease_key g) ∷ before) (tt, h))
    | inr f ↦ rw f (tt, h)
  ]

  write_status-OwnWrites :
      (status : LeaderGroupStatus) (cs : GroupCalls)
      → OwnWrites g cs
      → OwnWrites g (write_status g status cs).1
  unfolding write_status send_update_status ◌>>=◌
  write_status-OwnWrites status cs h = elim (Bool-cases (status_equal g.status status)) [
    | inl e ↦ rw e h
    | inr e ↦ rw e (tt, h)
  ]

  report-OwnWrites :
      (q : Result Lease) (cs : GroupCalls) → OwnWrites g cs → OwnWrites g (report g q cs).1
  unfolding update_status_from_lease now ◌>>=◌
  report-OwnWrites (ok x) cs h = write_status-OwnWrites _ (read_time ∷ cs) (tt, h)
  report-OwnWrites (err e) cs h = h

  reconcile_controller_type-OwnWrites :
      (cs : GroupCalls) → OwnWrites g cs → OwnWrites g (reconcile_controller_type g cs).1
  unfolding reconcile_controller_type fetch_lease ◌>>=◌
  reconcile_controller_type-OwnWrites cs h = elim (Bool-cases (str_eq g.component "")) [
    | inl e ↦ rw e h
    | inr e ↦ rw e (report-OwnWrites _ _ (ensure_lease-OwnWrites cs _ refl h))
  ]

  -- For a group that is not being deleted, whatever the server answers: every lease that is created
  -- has the group's lease name and namespace, labels that name zen-lead and the group, and the group
  -- as its only owner and controller, with its kind, name and UID. Every lease that is updated is the
  -- one that the call before it has read for that name and namespace, and gets these labels; its
  -- owners stay as they were, whoever they are, and only where it had none is the group made its
  -- owner. No lease is deleted.
  pub reconcile_found-OwnWrites :
      (cs : GroupCalls)
      → is_some g.deletion_timestamp ≡ false
      → OwnWrites g cs
      → OwnWrites g (reconcile_found g cs).1
  unfolding reconcile_found ◌>>=◌
  reconcile_found-OwnWrites cs live h = elim (Bool-cases (str_eq g.group_type "controller")) [
    | inl e ↦ rw (live, e) (reconcile_controller_type-OwnWrites cs h)
    | inr e ↦ elim (Bool-cases (str_eq g.group_type "routing")) [
      | inl f ↦ rw (live, e, f) h
      | inr f ↦ rw (live, e, f) h
    ]
  ]
