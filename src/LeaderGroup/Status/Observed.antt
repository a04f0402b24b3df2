-- ===== src/LeaderGroup/Status/Observed.antt =====
-- What a group's status says of its lease, and when it is written.
use zen_lead.Base.{
  ℕ, ◌/◌, ◌*◌, ◌==◌, ◌≡◌, ◌≢◌, refl, ap, ◌↔◌, true, String, Option, none, some, List, [], ◌∷◌,
  arith, str_eq, eq_iff, eq_refl, Bool-cases, inl, inr, if◌then◌else◌,
}
use zen_lead.Base.Int.{ℤ}
use zen_lead.Kube.Errors.{is_ok}
use zen_lead.LeaderGroup.Objects.{Condition, LeaderGroupStatus, LeaderGroup, Lease}
use zen_lead.LeaderGroup.Calls.{
  GroupClient, read_time, update_status, GroupCalls, ◌>>=◌, now, send_update_status,
}
use zen_lead.LeaderGroup.Status.{
  lease_ready, holder_of, or_else, ready_of, put_condition, status_from_lease, same_time, eqz,
  same_seconds, status_equal, write_status, update_status_from_lease,
}

-- The first condition of a type.
pub find_condition : String → List Condition → Option Condition
find_condition type [] = none
find_condition type (d ∷ ds) =
    let rest = find_condition type ds in if str_eq d.condition_type type then some d else rest

-- A condition that is put is found under its type; all others are found as before.
pub find_condition-put_condition :
    (c : Condition) (type : String) (ds : List Condition)
    → find_condition type (put_condition c ds)
      ≡ (if str_eq c.condition_type type then some c else find_condition type ds)
unfolding find_condition put_condition
find_condition-put_condition c type [] = refl
find_condition-put_condition c type (d ∷ ds) = ground (
  arith,
  find_condition-put_condition c type ds,
  eq_iff d.condition_type c.condition_type,
  eq_iff d.condition_type type,
  eq_iff c.condition_type type,
)

ready_of_type : (time : ℕ) (x : Lease) → (ready_of time x).condition_type ≡ lease_ready
unfolding ready_of
ready_of_type time x = ground arith

ready_of_status : (time : ℕ) (x : Lease) → ((ready_of time x).status ≡ "True") ↔ (holder_of x ≢ "")
unfolding ready_of
ready_of_status time x = elim (Bool-cases (str_eq (holder_of x) "")) [
  | inl e ↦ (
    λ h. absurd (ground (arith, e, h, eq_iff "False" "True")),
    λ h. absurd (h ((eq_iff (holder_of x) "").0 e)),
  )
  | inr e ↦ (λ h k. cc (e, (eq_iff (holder_of x) "").1 k), λ h. ground (arith, e))
]

-- The status that a lease gives says that the lease is ready exactly if the lease has a holder.
pub status_from_lease-ready :
    (time : ℕ) (x : Lease) (old : LeaderGroupStatus)
    → (c : Condition) × (find_condition lease_ready (status_from_lease time x old).conditions
        ≡ some c)
      × ((c.status ≡ "True") ↔ (holder_of x ≢ ""))
unfolding status_from_lease
status_from_lease-ready time x old = (
  ready_of time x,
  rw
      (
        find_condition-put_condition (ready_of time x) lease_ready old.conditions,
        ready_of_type time x,
      )
      refl,
  ready_of_status time x,
)

eqz_refl : (a : ℤ) → eqz a a ≡ true
eqz_refl a = ground arith

same_seconds_refl : (o : Option ℤ) → same_seconds o o ≡ true
same_seconds_refl none = refl
same_seconds_refl (some a) = eqz_refl a

same_time_refl : (o : Option ℕ) → same_time o o ≡ true
same_time_refl none = refl
same_time_refl (some a) = ground arith

or_else_idem : {A : Type 0} (new old : Option A) → or_else new (or_else new old) ≡ or_else new old
or_else_idem none old = refl
or_else_idem (some a) old = refl

-- A metav1.Time as the API server stores it: in RFC 3339, with whole seconds.
abbrev pub stored_time : ℕ → ℕ
stored_time t = t / 1000000000 * 1000000000

abbrev stored_renewal : Option ℕ → Option ℕ
stored_renewal none = none
stored_renewal (some t) = some (stored_time t)

abbrev stored_conditions : List Condition → List Condition
stored_conditions [] = []
stored_conditions (c ∷ cs) =
    record c { last_transition_time = stored_time c.last_transition_time } ∷ stored_conditions cs

-- A status as it is read after it was written.
abbrev pub stored_status : LeaderGroupStatus → LeaderGroupStatus
stored_status status = record status {
  renew_time = stored_renewal status.renew_time;
  conditions = stored_conditions status.conditions;
}

-- The status of the same lease is equal to the stored one exactly if the renewal has whole seconds.
status_equal-stored_status :
    (g : LeaderGroup) (x : Lease) (old : LeaderGroupStatus) (time later t : ℕ)
    → x.renew_time ≡ some t
    → g.status ≡ stored_status (status_from_lease time x old)
    → status_equal g.status (status_from_lease later x g.status)
      ≡ (t / 1000000000 * 1000000000 == t)
unfolding status_equal status_from_lease
status_equal-stored_status g x old time later t renewed h =
    rw
      (
        h,
        renewed,
        or_else_idem x.lease_duration_seconds old.lease_duration_seconds,
        eq_refl (holder_of x),
        eq_refl x.resource_version,
        same_seconds_refl (or_else x.lease_duration_seconds old.lease_duration_seconds),
      )
      (ground arith)

-- Of a lease that was renewed at t, in nanoseconds, and a group with the status that this lease gave,
-- as it is read back with whole seconds: the controller reads the clock, and makes no other call if
-- t has whole seconds. If it has not, it writes the status again, although the lease is the same.
pub update_status_from_lease-stored_status :
    ⦃client : GroupClient⦄ (g : LeaderGroup) (x : Lease) (old : LeaderGroupStatus) (time t : ℕ)
    (cs : GroupCalls)
    → x.renew_time ≡ some t
    → g.status ≡ stored_status (status_from_lease time x old)
    → (update_status_from_lease g x cs).1 ≡ (
        if t / 1000000000 * 1000000000 == t
        then read_time ∷ cs
        else (let again = record g { status = status_from_lease (client.now cs) x g.status } in
            update_status again (is_ok (client.update_status (read_time ∷ cs) again))
            ∷ read_time
            ∷ cs))
unfolding update_status_from_lease write_status ◌>>=◌ now send_update_status
update_status_from_lease-stored_status ⦃client⦄ g x old time t cs renewed h =
    elim (Bool-cases (t / 1000000000 * 1000000000 == t)) [
      | inl e ↦ rw (status_equal-stored_status g x old time (client.now cs) t renewed h, e) refl
      | inr e ↦ rw (status_equal-stored_status g x old time (client.now cs) t renewed h, e) refl
    ]

eqz_sound : (a b : ℤ) → eqz a b ≡ true → a ≡ b
eqz_sound a b h = ground arith

same_seconds_sound : (o p : Option ℤ) → same_seconds o p ≡ true → o ≡ p
same_seconds_sound none none h = refl
same_seconds_sound none (some b) h = cc
same_seconds_sound (some a) none h = cc
same_seconds_sound (some a) (some b) h = ap some (eqz_sound a b h)

same_time_sound : (o p : Option ℕ) → same_time o p ≡ true → o ≡ p
same_time_sound none none h = refl
same_time_sound none (some b) h = cc
same_time_sound (some a) none h = cc
same_time_sound (some a) (some b) h = ground arith

-- Two statuses pass for equal exactly if they agree on the holder, the resource version, the
-- renew time and the duration: neither the fencing token nor the conditions are compared.
pub status_equal_iff :
    (a b : LeaderGroupStatus)
    → (status_equal a b ≡ true) ↔ (
        (a.holder_identity ≡ b.holder_identity)
        × (a.observed_lease_resource_version ≡ b.observed_lease_resource_version)
        × (a.renew_time ≡ b.renew_time)
        × (a.lease_duration_seconds ≡ b.lease_duration_seconds))
unfolding status_equal
status_equal_iff a b = (
  λ h. (
    ground (arith, eq_iff a.holder_identity b.holder_identity),
    ground (arith, eq_iff a.observed_lease_resource_version b.observed_lease_resource_version),
    same_time_sound a.renew_time b.renew_time (ground arith),
    same_seconds_sound a.lease_duration_seconds b.lease_duration_seconds (ground arith),
  ),
  λ h.
      let (k, l, m, n) = h in
      rw
        (
          k,
          l,
          m,
          n,
          eq_refl b.holder_identity,
          eq_refl b.observed_lease_resource_version,
          same_time_refl b.renew_time,
          same_seconds_refl b.lease_duration_seconds,
        )
        refl,
)
