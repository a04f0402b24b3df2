-- ===== src/Director/Select/Leader.antt =====
-- What selectLeaderPod returns, with and without stickiness.
use mathlib.Core.Path.{subst}
use zen_lead.Base.{
  ℕ, ◌≡◌, ◌≢◌, refl, sym, ap, ◌∙◌, ◌⊎◌, inl, inr, Bool, true, false, String, some, List, [], ◌∷◌,
  arith, Any, In, Bool-cases, Option-cases, str_eq, eq_iff, not, ◌&&◌,
}
use zen_lead.Base.Int.{is_pos}
use zen_lead.Kube.Objects.{Pod, Service, Endpoint, EndpointSlice, ObjectReference}
use zen_lead.Kube.Errors.{Result, ok, err}
use zen_lead.Director.Reconciler.{Reconciler, State, ◌>>=◌}
use zen_lead.Director.Calls.{now, record_event, record_metric}
use zen_lead.Director.Pods.{is_pod_ready}
use zen_lead.Director.Naming.{get_min_ready_duration}
use zen_lead.Director.Select.{
  is_candidate, earliest_ready, is_sticky, pod_ref, ready_with_uid, sticky_leader, sticky_in,
  fetch_sticky, note_sticky, check_sticky, note_selected, select_earliest, select_leader_pod,
}
use zen_lead.Director.Select.Earliest.{earliest_ready_sound, earliest_ready_complete}

ready_with_uid_sound :
    (uid : String) (pods : List Pod) (p : Pod)
    → ready_with_uid uid pods ≡ some p
    → In p pods × (p.uid ≡ uid) × (is_pod_ready p ≡ true)
unfolding ready_with_uid
ready_with_uid_sound uid [] p h = cc
ready_with_uid_sound uid (q ∷ qs) p h = elim (Bool-cases (str_eq q.uid uid)) [
  | inl e ↦ elim (Bool-cases (is_pod_ready q)) [
    | inl f ↦
        let eq : q ≡ p = ground arith in
        (
          inl eq,
          subst (λ x. x.uid ≡ uid) eq ((eq_iff q.uid uid).0 e),
          subst (λ x. is_pod_ready x ≡ true) eq f,
        )
    | inr f ↦ absurd (ground arith)
  ]
  | inr e ↦ let (m, u, f) = ready_with_uid_sound uid qs p (rw e at h) in (inr m, u, f)
]

-- The endpoint refers to a pod with this UID.
abbrev pub RefersTo : String → Endpoint → Type 0
RefersTo uid e = (t : ObjectReference) × (pod_ref e ≡ some t) × (t.uid ≡ uid)

-- A sticky leader is a listed pod, it is Ready, and an endpoint of the slice refers to its UID.
pub sticky_leader_sound :
    (es : List Endpoint) (pods : List Pod) (p : Pod)
    → sticky_leader es pods ≡ some p
    → In p pods × (is_pod_ready p ≡ true) × Any (RefersTo p.uid) es
unfolding sticky_leader
sticky_leader_sound [] pods p h = cc
sticky_leader_sound (e ∷ es) pods p h = elim (Option-cases (pod_ref e)) [
  | inl f ↦ let (m, k, a) = sticky_leader_sound es pods p (ground arith) in (m, k, inr a)
  | inr (t, f) ↦ elim (Option-cases (ready_with_uid t.uid pods)) [
    | inl g ↦ let (m, k, a) = sticky_leader_sound es pods p (ground arith) in (m, k, inr a)
    | inr (q, g) ↦
        let eq : q ≡ p = ground arith in
        let (m, u, k) = ready_with_uid_sound t.uid pods q g in
        (
          subst (λ x. In x pods) eq m,
          subst (λ x. is_pod_ready x ≡ true) eq k,
          inl (t, f, subst (λ x. t.uid ≡ x.uid) eq (sym u)),
        )
  ]
]

ready_with_uid_unique :
    (uid : String) (pods : List Pod) (p : Pod)
    → In p pods
    → p.uid ≡ uid
    → is_pod_ready p ≡ true
    → ((q : Pod) → In q pods → q.uid ≡ uid → q ≡ p)
    → ready_with_uid uid pods ≡ some p
unfolding ready_with_uid
ready_with_uid_unique uid [] p m u k only = absurd m
ready_with_uid_unique uid (q ∷ qs) p m u k only = elim (Bool-cases (str_eq q.uid uid)) [
  | inl e ↦
      let eq : q ≡ p = only q (inl refl) ((eq_iff q.uid uid).0 e) in
      rw (e, subst (λ x. is_pod_ready x ≡ true) (sym eq) k) (ap some eq)
  | inr e ↦ rw e (
      ready_with_uid_unique uid qs p
        (elim m [
          | inl eq ↦ absurd (ground (arith, eq_iff q.uid uid, ap (λ (x : Pod). x.uid) eq))
          | inr r ↦ r
        ])
        u k (λ x r v. only x (inr r) v))
]

-- An endpoint with a reference to a pod leads back to it: as long as the pod with this UID is
-- listed, is Ready and is the only one with this UID, it stays the leader.
pub sticky_leader-reference :
    (l : Pod) (pods : List Pod) (p : Pod) (e : Endpoint)
    → e.target_ref
      ≡ some (record { kind = "Pod"; namespace = l.namespace; name = l.name; uid = l.uid })
    → l.uid ≢ ""
    → In p pods
    → p.uid ≡ l.uid
    → is_pod_ready p ≡ true
    → ((q : Pod) → In q pods → q.uid ≡ l.uid → q ≡ p)
    → sticky_leader (e ∷ []) pods ≡ some p
unfolding sticky_leader pod_ref
sticky_leader-reference l pods p e ref uid m u k only =
    ground (arith, ref, eq_iff l.uid "", ready_with_uid_unique l.uid pods p m u k only)

module _ ⦃r : Reconciler⦄ where
  select_earliest_value :
      (svc : Service) (pods : List Pod) (s : State)
      → (time : ℕ) × ((select_earliest svc pods s).0
          ≡ earliest_ready (get_min_ready_duration svc) time pods)
  unfolding select_earliest note_selected now record_event ◌>>=◌
  select_earliest_value svc pods s = (r.client.now s.calls, ground arith)

  pub check_sticky_value :
      (svc : Service) (pods : List Pod) (s : State)
      → (check_sticky svc pods s).0 ≡ sticky_in (fetch_sticky svc s).0 pods
  unfolding check_sticky note_sticky record_metric ◌>>=◌
  check_sticky_value svc pods s = ground arith

  -- the branches of the selection, by their values
  pub select_leader_pod_cases :
      (svc : Service) (pods : List Pod) (bypass : Bool) (s : State)
      → ((p : Pod) × (found : Result EndpointSlice) × ((select_leader_pod svc pods bypass s).0
            ≡ some p)
          × (sticky_in found pods ≡ some p))
        ⊎ ((time : ℕ) × ((select_leader_pod svc pods bypass s).0
              ≡ earliest_ready (get_min_ready_duration svc) time pods))
  unfolding select_leader_pod ◌>>=◌
  select_leader_pod_cases svc pods bypass s = elim (Bool-cases (is_sticky svc && not bypass)) [
    | inl e ↦ elim (Option-cases (check_sticky svc pods s).0) [
      | inl f ↦
          let (time, g) = select_earliest_value svc pods (check_sticky svc pods s).1 in
          inr (time, ground (arith, g))
      | inr (p, f) ↦
          inl (p, (fetch_sticky svc s).0, ground arith, sym (check_sticky_value svc pods s) ∙ f)
    ]
    | inr e ↦ let (time, g) = select_earliest_value svc pods s in inr (time, ground (arith, g))
  ]

  sticky_in_ready :
      (found : Result EndpointSlice) (pods : List Pod) (p : Pod)
      → sticky_in found pods ≡ some p
      → In p pods × (is_pod_ready p ≡ true)
  sticky_in_ready (ok x) pods p h =
      let (m, k, a) = sticky_leader_sound x.endpoints pods p h in (m, k)
  sticky_in_ready (err e) pods p h = cc

  -- Whatever the server and the clock answer, a selected leader is one of the listed pods, and it
  -- is Ready.
  pub select_leader_pod_ready :
      (svc : Service) (pods : List Pod) (bypass : Bool) (s : State) (p : Pod)
      → (select_leader_pod svc pods bypass s).0 ≡ some p
      → In p pods × (is_pod_ready p ≡ true)
  unfolding is_candidate
  select_leader_pod_ready svc pods bypass s p h = elim (select_leader_pod_cases svc pods bypass s) [
    | inl (q, found, e, f) ↦ sticky_in_ready found pods p (f ∙ sym e ∙ h)
    | inr (time, e) ↦
        let (m, c, k) = earliest_ready_sound (get_min_ready_duration svc) time pods p (sym e ∙ h) in
        (m, ground arith)
  ]

  -- Without flap damping, a leader is selected whenever some listed pod is Ready.
  pub select_leader_pod_total :
      (svc : Service) (pods : List Pod) (bypass : Bool) (s : State) (q : Pod)
      → is_pos (get_min_ready_duration svc) ≡ false
      → In q pods
      → is_pod_ready q ≡ true
      → (p : Pod) × ((select_leader_pod svc pods bypass s).0 ≡ some p)
  unfolding is_candidate
  select_leader_pod_total svc pods bypass s q d m k =
      elim (select_leader_pod_cases svc pods bypass s) [
        | inl (p, found, e, f) ↦ (p, e)
        | inr (time, e) ↦
            let (p, f) =
              earliest_ready_complete (get_min_ready_duration svc) time pods q m (ground arith) in
            (p, e ∙ f)
      ]
