-- ===== src/LeaderGroup/Reconcile.antt =====
-- leadergroup_controller.go: Reconcile, reconcileControllerType and cleanupLease. A successful run
-- returns after which time it is to run again, if at all.
pub mod Writes
use zen_lead.Base.{
  ℕ, String, Bool, true, false, not, Option, none, some, str_eq, is_some, if◌then◌else◌,
}
use zen_lead.Kube.Objects.{Key}
use zen_lead.Kube.Errors.{Error, Result, ok, err, other, wrap, is_not_found}
use zen_lead.LeaderGroup.Objects.{LeaderGroup, Lease}
use zen_lead.LeaderGroup.Calls.{
  GroupClient, G, ◌>>=◌, pure, fetch_group, fetch_lease, send_create_lease, send_delete_lease,
}
use zen_lead.LeaderGroup.Leases.{derive_lease_name, build_lease, update_lease_metadata}
use zen_lead.LeaderGroup.Status.{update_status_from_lease}

-- LeaderGroupTypeController, LeaderGroupTypeRouting
abbrev pub controller_type : String
controller_type = "controller"

abbrev pub routing_type : String
routing_type = "routing"

abbrev pub lease_key : LeaderGroup → Key
lease_key g = record { namespace = g.namespace; name = derive_lease_name g.component }

abbrev ended : Result (Unit {0}) → Result (Option ℕ)
ended (ok u) = ok none
ended (err e) = err e

module _ ⦃c : GroupClient⦄ where
  abbrev delete_found : Result Lease → G (Result (Unit {0}))
  delete_found (ok x) = send_delete_lease x
  delete_found (err e) = pure (if is_not_found e then ok tt else err e)

  -- cleanupLease
  unfoldable pub cleanup_lease : LeaderGroup → G (Result (Unit {0}))
  cleanup_lease g =
      if not (str_eq g.group_type controller_type)
      then pure (ok tt)
      else (do lease ← fetch_lease (lease_key g); delete_found lease)

  abbrev created : Result Lease → Result Lease
  created (ok x) = ok x
  created (err e) = err (wrap "failed to create Lease" e)

  unfoldable pub create_new_lease : LeaderGroup → G (Result Lease)
  create_new_lease g = do
    answer ← send_create_lease (build_lease g (derive_lease_name g.component))
    pure (created answer)

  -- the lease as it is after the part that fetches, creates or claims it
  unfoldable pub ensure_lease : LeaderGroup → Result Lease → G (Result Lease)
  ensure_lease g (ok x) = update_lease_metadata x g
  ensure_lease g (err e) = if is_not_found e then create_new_lease g else pure (err e)

  abbrev report : LeaderGroup → Result Lease → G (Result (Option ℕ))
  report g (ok x) = update_status_from_lease g x
  report g (err e) = pure (err e)

  -- reconcileControllerType
  unfoldable pub reconcile_controller_type : LeaderGroup → G (Result (Option ℕ))
  reconcile_controller_type g =
      if str_eq g.component ""
      then pure (err (other "component name is required for controller type"))
      else (do found ← fetch_lease (lease_key g); lease ← ensure_lease g found; report g lease)

  unfoldable pub reconcile_found : LeaderGroup → G (Result (Option ℕ))
  reconcile_found g =
      if is_some g.deletion_timestamp
      then (do cleaned ← cleanup_lease g; pure (ended cleaned))
      else if str_eq g.group_type controller_type
      then reconcile_controller_type g
      else if str_eq g.group_type routing_type
      then pure (ok none)
      else pure (err (other "unknown LeaderGroup type"))

  abbrev with_group : Result LeaderGroup → G (Result (Option ℕ))
  with_group (ok g) = reconcile_found g
  with_group (err e) = pure (if is_not_found e then ok none else err e)

  -- Reconcile
  unfoldable pub reconcile_group : Key → G (Result (Option ℕ))
  reconcile_group req = do group ← fetch_group req; with_group group
