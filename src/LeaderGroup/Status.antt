-- ===== src/LeaderGroup/Status.antt =====
-- leadergroup_controller.go: updateStatusFromLease and statusEqual.
pub mod Observed
use zen_lead.Base.{
  ℕ, String, Bool, true, false, not, ◌&&◌, Option, none, some, List, [], ◌∷◌, str_eq, ◌==◌, ltb,
  if◌then◌else◌,
}
use zen_lead.Base.Text.{append}
use zen_lead.Base.Int.{ℤ, pos, ltz}
use zen_lead.Kube.Errors.{Error, Result, ok, err}
use zen_lead.LeaderGroup.Objects.{Condition, LeaderGroupStatus, LeaderGroup, Lease}
use zen_lead.LeaderGroup.Calls.{GroupClient, G, ◌>>=◌, pure, now, send_update_status}

abbrev pub lease_ready : String
lease_ready = "LeaseReady"

-- `if p != nil { field = p }`
abbrev or_else : {A : Type 0} → Option A → Option A → Option A
or_else none old = old
or_else (some a) old = some a

-- `*HolderIdentity`, and nothing where it is nil
abbrev pub holder_of : Lease → String
holder_of x = elim x.holder_identity [ none ↦ "" | some h ↦ h ]

-- the new LeaseReady condition
unfoldable pub ready_of : ℕ → Lease → Condition
ready_of time x =
    if str_eq (holder_of x) ""
    then record {
      condition_type = lease_ready;
      status = "False";
      reason = "NoHolder";
      message = "Lease exists but no holder";
      last_transition_time = time;
    }
    else record {
      condition_type = lease_ready;
      status = "True";
      reason = "LeaseExists";
      message = append "Lease \"" (append x.name "\" exists");
      last_transition_time = time;
    }

-- the first condition of its type is replaced; it is appended if there is none
unfoldable pub put_condition : Condition → List Condition → List Condition
put_condition c [] = c ∷ []
put_condition c (d ∷ ds) =
    let rest = put_condition c ds in
    if str_eq d.condition_type c.condition_type then c ∷ ds else d ∷ rest

-- the status that the lease gives, in memory, where its renew time is exact; Observed has how it is
-- stored
unfoldable pub status_from_lease : ℕ → Lease → LeaderGroupStatus → LeaderGroupStatus
status_from_lease time x old = record {
  holder_identity = holder_of x;
  renew_time = or_else x.renew_time old.renew_time;
  lease_duration_seconds = or_else x.lease_duration_seconds old.lease_duration_seconds;
  fencing_token = or_else x.lease_transitions old.fencing_token;
  observed_lease_resource_version = x.resource_version;
  conditions = put_condition (ready_of time x) old.conditions;
}

abbrev same_time : Option ℕ → Option ℕ → Bool
same_time none none = true
same_time none (some b) = false
same_time (some a) none = false
same_time (some a) (some b) = a == b

abbrev pub eqz : ℤ → ℤ → Bool
eqz a b = not (ltz a b) && not (ltz b a)

abbrev same_seconds : Option ℤ → Option ℤ → Bool
same_seconds none none = true
same_seconds none (some b) = false
same_seconds (some a) none = false
same_seconds (some a) (some b) = eqz a b

-- statusEqual
unfoldable pub status_equal : LeaderGroupStatus → LeaderGroupStatus → Bool
status_equal a b =
    if not (str_eq a.holder_identity b.holder_identity)
    then false
    else if not (str_eq a.observed_lease_resource_version b.observed_lease_resource_version)
    then false
    else same_time a.renew_time b.renew_time
      && same_seconds a.lease_duration_seconds b.lease_duration_seconds

-- 10*time.Second
abbrev pub requeue_after : ℕ
requeue_after = 10000000000

abbrev requeued : Result (Unit {0}) → Result (Option ℕ)
requeued (ok u) = ok (some requeue_after)
requeued (err e) = err e

unfoldable pub write_status :
    ⦃c : GroupClient⦄ → LeaderGroup → LeaderGroupStatus → G (Result (Option ℕ))
write_status g status =
    if not (status_equal g.status status)
    then (do written ← send_update_status (record g { status = status }); pure (requeued written))
    else pure (ok (some requeue_after))

-- updateStatusFromLease
unfoldable pub update_status_from_lease :
    ⦃c : GroupClient⦄ → LeaderGroup → Lease → G (Result (Option ℕ))
update_status_from_lease g x = do time ← now; write_status g (status_from_lease time x g.status)
