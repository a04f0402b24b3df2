-- ===== src/Director/Reconcile/Stays.antt =====
-- The leader that one run has written is the one that a later run selects.
use mathlib.Core.Path.{subst}
use zen_lead.Base.{
  ℕ, ◌≤◌, length, ◌≡◌, ◌≢◌, refl, ap, ◌∙◌, true, false, some, str_eq, eq_iff, Bool-cases, inl, inr,
  List, [], ◌∷◌, In, arith,
}
use zen_lead.Kube.Objects.{Key, Pod, Service, ServicePort, Endpoint, EndpointSlice}
use zen_lead.Kube.Errors.{ok}
use zen_lead.Director.Reconciler.{Calls, Reconciler, State, ◌>>=◌}
use zen_lead.Director.Calls.{fetch_slice}
use zen_lead.Director.Keeps.{Stable, Leads, Leads-value}
use zen_lead.Director.Retry.Laws.{RetryLaws, Leads-retry}
use zen_lead.Director.Pods.{is_pod_ready}
use zen_lead.Director.Ports.Resolution.{numbered_ports}
use zen_lead.Director.EndpointSlices.Keyed.{
  slice_at, slice_at-Stable, slice_at-elsewhere, ReadsByKey, elsewhere,
}
use zen_lead.Director.EndpointSlices.Published.{IsEndpointOf, Publishes}
use zen_lead.Director.LeaderService.Publishing.{reconcile_leader_service-Publishes}
use zen_lead.Director.Select.{
  is_sticky, sticky_leader, sticky_in, fetch_sticky, check_sticky, select_leader_pod,
}
use zen_lead.Director.Select.Leader.{sticky_leader-reference, check_sticky_value}
use zen_lead.Director.LeaderService.{leader_key, reconcile_leader_service}
use zen_lead.Director.LeaderService.Serves.{served_leader, served_ports}
use zen_lead.Director.Sections.{Sections}
use zen_lead.Director.Sections.Reached.{Sections-calls}

-- From n calls on, where a slice is under the leader service's key, a read for this key returns it
-- as it was last written: by then the client has caught up with the writes.
abbrev pub ReadsBack : ⦃r : Reconciler⦄ → Service → ℕ → Type 0
ReadsBack ⦃r⦄ svc n =
    (cs : Calls) (x : EndpointSlice)
    → n ≤ length cs
    → slice_at (leader_key svc) cs ≡ some x
    → r.client.get_slice cs (leader_key svc) ≡ ok x

-- The slice is there after n calls or more.
abbrev IsThere : Key → ℕ → EndpointSlice → Calls → Type 0
IsThere k n x cs = (n ≤ length cs) × (slice_at k cs ≡ some x)

IsThere-Stable : (k : Key) (n : ℕ) (x : EndpointSlice) → Stable (IsThere k n x)
IsThere-Stable k n x c cs q (h, e) = (omega (arith, h), slice_at-Stable k x c cs q e)

-- The pod that has the leader's UID, alone, is listed and Ready.
pub record StillReady (l : Pod) (pods : List Pod) (p : Pod) : Type 0 where
  pub member : In p pods
  pub same_uid : p.uid ≡ l.uid
  pub ready : is_pod_ready p ≡ true
  pub alone : (q : Pod) → In q pods → q.uid ≡ l.uid → q ≡ p

-- A pod that can be found again: it has an address and a UID.
pub record IsReachable (l : Pod) : Type 0 where
  pub address : l.pod_ip ≢ ""
  pub uid : l.uid ≢ ""

-- The endpoint of a pod with an address refers to the pod.
reference_of :
    (l : Pod) (e : Endpoint)
    → l.pod_ip ≢ ""
    → IsEndpointOf (some l) e
    → e.target_ref
      ≡ some (record { kind = "Pod"; namespace = l.namespace; name = l.name; uid = l.uid })
reference_of l e address of_leader = elim (Bool-cases (str_eq l.pod_ip "")) [
  | inl k ↦ absurd (address ((eq_iff l.pod_ip "").0 k))
  | inr k ↦ of_leader.1 ∙ rw k refl
]

module _ ⦃r : Reconciler⦄ (laws : RetryLaws r) (svc : Service)
    (by_key : ReadsByKey (leader_key svc)) where
  fetch_slice-IsThere :
      (n : ℕ) (x : EndpointSlice)
      → ReadsBack svc n
      → Leads
          (IsThere (leader_key svc) n x)
          (IsThere (leader_key svc) n x)
          (fetch_slice (leader_key svc))
          (λ y cs. y ≡ x)
  unfolding fetch_slice
  fetch_slice-IsThere n x back = record { to = λ s h. rw (back s.calls x h.0 h.1) refl }

  fetch_sticky-IsThere :
      (x y : EndpointSlice) (s : State)
      → ReadsBack svc (length s.calls)
      → slice_at (leader_key svc) s.calls ≡ some x
      → (fetch_sticky svc s).0 ≡ ok y
      → y ≡ x
  unfolding fetch_sticky
  fetch_sticky-IsThere x y s back h e =
      Leads-value _
        (Leads-retry laws (IsThere-Stable (leader_key svc) (length s.calls) x) (λ y cs. y ≡ x)
          (λ y c cs q k. k) _ _ svc.namespace svc.name "get_endpointslice_sticky"
          (fetch_slice-IsThere (length s.calls) x back))
        s y (omega arith, h) e

  kept_by_sticky :
      (pods : List Pod) (s : State) (p : Pod)
      → is_sticky svc ≡ true
      → (check_sticky svc pods s).0 ≡ some p
      → (select_leader_pod svc pods false s).0 ≡ some p
  unfolding select_leader_pod ◌>>=◌
  kept_by_sticky pods s p on e = ground (arith, on, e)

  sticky_value :
      (l p : Pod) (pods : List Pod) (s : State) (y : EndpointSlice) (e : Endpoint)
      → IsReachable l
      → StillReady l pods p
      → y.endpoints ≡ e ∷ []
      → IsEndpointOf (some l) e
      → (fetch_sticky svc s).0 ≡ ok y
      → (check_sticky svc pods s).0 ≡ some p
  sticky_value l p pods s y e can still alone of_leader read =
      check_sticky_value svc pods s
      ∙ ap (λ q. sticky_in q pods) read
      ∙ ap (λ es. sticky_leader es pods) alone
      ∙ sticky_leader-reference l pods p e (reference_of l e can.address of_leader) can.uid
          still.member still.same_uid still.ready still.alone

  -- A leader with an address and a UID that a run has written with all its ports stays: whatever
  -- else is read or written until then, by whomever, and whatever happens to the caches, as long as
  -- no accepted write touches the slice of the leader service's key, the next selection that reads
  -- the slice takes the pod of the same UID again, if it is listed, alone with its UID and
  -- Ready, and stickiness is on. A pod that is older or that became Ready earlier does not take over.
  -- The conditions on what is outside: retry.Do is as RetryLaws says, a slice that is read for the
  -- key has its namespace and name (ReadsByKey), and from the selection on a read returns what was
  -- last written under the key (ReadsBack).
  pub reconcile_leader_service-stays :
      (l p : Pod) (qs : List ServicePort) (pods : List Pod) (s u : State) (y : EndpointSlice)
      → ReadsBack svc (length u.calls)
      → (reconcile_leader_service svc (some l) s).0 ≡ ok tt
      → numbered_ports (some l) svc.ports ≡ some qs
      → Sections (elsewhere (leader_key svc)) (reconcile_leader_service svc (some l) s).1 u
      → (fetch_sticky svc u).0 ≡ ok y
      → is_sticky svc ≡ true
      → IsReachable l
      → StillReady l pods p
      → (select_leader_pod svc pods false u).0 ≡ some p
  reconcile_leader_service-stays l p qs pods s u y back done ports meanwhile read on can still =
      kept_by_sticky pods u p on (
        sticky_value l p pods u y after.endpoint can still
          (ap (λ (x : EndpointSlice). x.endpoints) same ∙ after.alone) after.of_leader read)
    where
      after :
          Publishes (leader_key svc) (some l) qs (reconcile_leader_service svc (some l) s).1.calls
      after =
          subst
            (λ o.
              Publishes (leader_key svc) (served_leader o (some l)) (served_ports o)
                (reconcile_leader_service svc (some l) s).1.calls)
            ports (reconcile_leader_service-Publishes laws svc by_key (some l) s done)

      later : slice_at (leader_key svc) u.calls ≡ some after.slice
      later =
          Sections-calls (slice_at-elsewhere (leader_key svc) after.slice) meanwhile after.is_now

      same : y ≡ after.slice
      same = fetch_sticky-IsThere after.slice y u back later read
