-- ===== src/Director/Reconcile/Serving.antt =====
-- What a successful Reconcile has left in the cluster, whatever the server answered on the way.
use mathlib.Core.Path.{subst}
use zen_lead.Base.{
  ℕ, ◌≡◌, refl, sym, Bool, true, false, String, Option, none, some, List, [], ◌∷◌, not, In,
}
use zen_lead.Kube.Objects.{Key, Pod, Service}
use zen_lead.Kube.Errors.{Error, Result, ok, err}
use zen_lead.Director.Reconciler.{Calls, Reconciler, State, ◌>>=◌}
use zen_lead.Director.Calls.{now, fetch_pods}
use zen_lead.Director.Keeps.{
  Stable, Keeps, Post, Leads, Leads-if, Leads-if_at, Leads-ok, Leads-err, Leads-bind, Leads-bind_at,
  Leads-step, Leads-value, Leads-weaken, Anything, Anything-Stable, Keeps-Anything, keeps_rules,
}
use zen_lead.Director.Retry.Laws.{RetryLaws, Leads-retry}
use zen_lead.Director.Pods.{is_pod_ready}
use zen_lead.Director.Naming.{is_enabled, get_min_ready_duration}
use zen_lead.Director.ServiceCache.{has_selector}
use zen_lead.Director.Select.Leader.{select_leader_pod_ready, select_leader_pod_total}
use zen_lead.Base.Int.{is_pos}
use zen_lead.Director.EndpointSlices.Routes.{RoutesTo-Stable}
use zen_lead.Director.LeaderService.Serves.{
  Serves, served_leader, served_ports, reconcile_leader_service-Leads,
}
use zen_lead.Director.Ports.Resolution.{numbered_ports}
use zen_lead.Director.Reconcile.{
  finish, fail, succeed, no_pods_found, record_leader, apply_leader, reconcile_pods, with_pods,
  list_candidates, fetch_source, with_source, reconcile_service, service_enabled, reconcile,
}

-- A leader is a Ready one of the pods; without flap damping there is one if any pod is Ready.
pub record Selected ⦃r : Reconciler⦄ (svc : Service) (pods : List Pod) (leader : Option Pod)
    : Type 0 where
  pub is_ready : (p : Pod) → leader ≡ some p → In p pods × (is_pod_ready p ≡ true)
  pub is_there :
      is_pos (get_min_ready_duration svc) ≡ false
      → (q : Pod) → In q pods
      → is_pod_ready q ≡ true
      → (p : Pod) × (leader ≡ some p)

-- The slice routes to the selected one of the pods, or to nobody.
pub record ServesReady ⦃r : Reconciler⦄ (svc : Service) (pods : List Pod) (cs : Calls)
    : Type 0 where
  pub leader : Option Pod
  pub selected : Selected svc pods leader
  pub serves : Serves svc leader cs

-- The server listed these pods for the selector, at some time.
abbrev pub Listed : ⦃r : Reconciler⦄ → Service → List Pod → Type 0
Listed ⦃r⦄ svc pods = (cs : Calls) × (r.client.list_pods cs svc.namespace svc.selector ≡ ok pods)

-- The slice routes to a Ready one of the listed pods, or to nobody.
pub record ServesListed ⦃r : Reconciler⦄ (svc : Service) (cs : Calls) : Type 0 where
  pub pods : List Pod
  pub listed : Listed svc pods
  pub serves_ready : ServesReady svc pods cs

not-ne : (b : Bool) → b ≡ true → not b ≡ true → ⊥
not-ne true h k = cc
not-ne false h k = cc

module _ ⦃r : Reconciler⦄ (laws : RetryLaws r) where
  -- a stable fact about the value, and the rest of the run
  Serves-Stable : (svc : Service) (leader : Option Pod) → Stable (Serves svc leader)
  Serves-Stable svc leader =
      RoutesTo-Stable (served_leader (numbered_ports leader svc.ports) leader)
        (served_ports (numbered_ports leader svc.ports))

  ServesReady-Stable : (svc : Service) (pods : List Pod) → Stable (ServesReady svc pods)
  ServesReady-Stable svc pods c cs h t = record {
    leader = t.leader;
    selected = t.selected;
    serves = Serves-Stable svc t.leader c cs h t.serves;
  }

  fail-Leads :
      {Q : Unit {0} → Calls → Type 0} (start : ℕ) (ns name class : String) (e : Error)
      → Leads Anything Anything (fail start ns name class e) Q
  unfolding fail
  fail-Leads start ns name class e =
      Leads-bind _ _ (Keeps-Anything _)
        λ u. Leads-bind _ _ (Keeps-Anything _) λ u. Leads-err e (λ cs h. h)

  succeed-Leads :
      {P : Calls → Type 0}
      → Stable P
      → (start : ℕ) (ns name : String) → Leads P Anything (succeed start ns name) (λ u. P)
  unfolding succeed finish
  succeed-Leads st start ns name =
      Leads-bind _ _ (search (keeps_rules, st)) λ u. Leads-ok tt (λ cs h. h)

  record_leader-Keeps :
      {P : Calls → Type 0}
      → Stable P
      → (svc : Service) (leader : Option Pod) → Keeps P (record_leader svc leader)
  unfolding record_leader
  record_leader-Keeps st svc none = search (keeps_rules, st)
  record_leader-Keeps st svc (some p) = search (keeps_rules, st)

  apply_leader-Leads :
      (start : ℕ) (svc : Service) (leader : Option Pod)
      → Leads Anything Anything (apply_leader start svc leader) (λ u. Serves svc leader)
  unfolding apply_leader
  apply_leader-Leads start svc leader =
      Leads-step (λ u. Serves svc leader) _ _ (reconcile_leader_service-Leads laws svc leader)
        (λ u.
          Leads-bind _ _ (record_leader-Keeps (Serves-Stable svc leader) svc leader)
            (λ u. succeed-Leads (Serves-Stable svc leader) start svc.namespace svc.name))
        (λ e. fail-Leads start svc.namespace svc.name _ e)

  reconcile_pods-Leads :
      (start : ℕ) (svc : Service) (pods : List Pod)
      → Leads Anything Anything (reconcile_pods start svc pods) (λ u. ServesReady svc pods)
  unfolding reconcile_pods
  reconcile_pods-Leads start svc pods = Leads-bind _ _ (Keeps-Anything _) λ current.
      Leads-bind _ _ (Keeps-Anything _) λ path. Leads-bind _ _ (Keeps-Anything _) λ u.
        Leads-bind _ _ (Keeps-Anything _) λ u.
          Leads-bind_at (Selected svc pods) _ _
            (λ s. record {
              is_ready = select_leader_pod_ready svc pods path.bypass_stickiness s;
              is_there = λ d q. select_leader_pod_total svc pods path.bypass_stickiness s q d;
            })
            (Keeps-Anything _)
            λ leader chosen. Leads-bind _ _ (Keeps-Anything _) λ u.
              Leads-weaken _ (apply_leader-Leads start svc leader)
                (λ u cs h. record { leader = leader; selected = chosen; serves = h })

  nobody : (svc : Service) → Selected svc [] none
  nobody svc = record { is_ready = λ p e. cc; is_there = λ d q m. absurd m }

  no_pods_found-Leads :
      (start : ℕ) (svc : Service)
      → Leads Anything Anything (no_pods_found start svc) (λ u. ServesReady svc [])
  unfolding no_pods_found
  no_pods_found-Leads start svc = Leads-bind _ _ (Keeps-Anything _) λ u.
      Leads-step (λ u. ServesReady svc []) _ _
        (Leads-weaken _ (reconcile_leader_service-Leads laws svc none)
          (λ u cs h. record { leader = none; selected = nobody svc; serves = h }))
        (λ u. succeed-Leads (ServesReady-Stable svc []) start svc.namespace svc.name)
        (λ e. fail-Leads start svc.namespace svc.name _ e)

  with_pods-Leads :
      (start : ℕ) (svc : Service) (pods : List Pod)
      → Leads Anything Anything (with_pods start svc pods) (λ u. ServesReady svc pods)
  with_pods-Leads start svc [] = no_pods_found-Leads start svc
  with_pods-Leads start svc (p ∷ ps) = reconcile_pods-Leads start svc (p ∷ ps)

  fetch_pods-Listed :
      (svc : Service)
      → Leads Anything Anything (fetch_pods svc.namespace svc.selector) (λ pods cs. Listed svc pods)
  unfolding fetch_pods
  fetch_pods-Listed svc = record {
    to = λ s h. at_answer s.calls _ (r.client.list_pods s.calls svc.namespace svc.selector) refl;
  }
    where
      at_answer :
          (cs later : Calls) (q : Result (List Pod))
          → r.client.list_pods cs svc.namespace svc.selector ≡ q
          → Post Anything (λ pods cs. Listed svc pods) q later
      at_answer cs later (ok pods) h = (cs, h)
      at_answer cs later (err e) h = tt

  list_candidates-Listed :
      (svc : Service) → Leads Anything Anything (list_candidates svc) (λ pods cs. Listed svc pods)
  unfolding list_candidates
  list_candidates-Listed svc =
      Leads-retry laws Anything-Stable (λ pods cs. Listed svc pods) (λ pods c cs q h. h)
        r.libraries.default_retry (fetch_pods svc.namespace svc.selector) svc.namespace svc.name
        "list_pods" (fetch_pods-Listed svc)

  reconcile_service-Leads :
      (start : ℕ) (svc : Service)
      → Leads Anything Anything (reconcile_service start svc) (λ u. ServesListed svc)
  unfolding reconcile_service
  reconcile_service-Leads start svc =
      Leads-step (λ pods cs. Listed svc pods) _ _ (list_candidates-Listed svc)
        (λ pods. record {
          to = λ s h.
              (Leads-bind {P = Anything} _ _ (Keeps-Anything _) (λ u.
                  Leads-weaken _ (with_pods-Leads start svc pods)
                    (λ u cs t. record { pods = pods; listed = h; serves_ready = t }))).to
                s tt;
        })
        (λ e. fail-Leads start svc.namespace svc.name _ _)

  service_enabled-Leads :
      (start : ℕ) (req : Key) (svc : Service)
      → has_selector svc ≡ true
      → Leads Anything Anything (service_enabled start req svc) (λ u. ServesListed svc)
  unfolding service_enabled
  service_enabled-Leads start req svc has = Leads-bind _ _ (Keeps-Anything _) λ u.
      Leads-if (not (r.libraries.is_dns1123_label req.namespace)) _ _ (fail-Leads start _ _ _ _) (
        Leads-if (not (r.libraries.is_dns1123_subdomain req.name)) _ _ (fail-Leads start _ _ _ _) (
          Leads-if_at (not (has_selector svc)) _ _
            (λ missing. absurd (not-ne (has_selector svc) has missing))
            (λ there. reconcile_service-Leads start svc)))

  with_source-Leads :
      (start : ℕ) (req : Key) (svc : Service) (q : Result Service)
      → q ≡ ok svc
      → is_enabled svc ≡ true
      → has_selector svc ≡ true
      → Leads Anything Anything (with_source start req q) (λ u. ServesListed svc)
  with_source-Leads start req svc q found on has =
      subst (λ p. Leads Anything Anything (with_source start req p) (λ u. ServesListed svc))
        (sym found)
        (Leads-if_at (is_enabled svc) _ _ (λ u. service_enabled-Leads start req svc has)
          (λ off. cc (off, on)))

  -- Whatever the server answers: if Reconcile reads a service that is opted in and has a
  -- selector, and returns without an error, then the slice, as last written, has exactly one
  -- endpoint. It is that of a leader among the pods that the server listed for the selector, with
  -- the service's ports resolved against it; it is that of no pod if a port cannot be resolved or
  -- there is no leader. A leader is Ready, and without a minimum of readiness there is one if any
  -- listed pod is Ready.
  pub reconcile-ServesListed :
      (req : Key) (svc : Service) (s : State)
      → (fetch_source req (now s).1).0 ≡ ok svc
      → is_enabled svc ≡ true
      → has_selector svc ≡ true
      → (reconcile req s).0 ≡ ok tt
      → ServesListed svc (reconcile req s).1.calls
  unfolding reconcile ◌>>=◌
  reconcile-ServesListed req svc s found on has h =
      Leads-value _
        (with_source-Leads (now s).0 req svc (fetch_source req (now s).1).0 found on has)
        (fetch_source req (now s).1).1 tt tt h
