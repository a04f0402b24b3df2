-- ===== src/Director/Reconcile/Failover.antt =====
-- What the fast path of Reconcile does with a leader that is not healthy.
use zen_lead.Base.{◌≡◌, refl, ◌⊎◌, true, Option, none, some, List, is_some, arith, String}
use zen_lead.Kube.Objects.{Pod, Service}
use zen_lead.Director.Reconciler.{Reconciler, State, ◌>>=◌}
use zen_lead.Director.Calls.{now, record_event}
use zen_lead.Director.Naming.{get_min_ready_duration}
use zen_lead.Director.LeaderPodCache.{leader_from_cache}
use zen_lead.Director.LeaderPodCache.Entries.{leader_from_cache-clear}
use zen_lead.Director.Select.{earliest_ready, note_selected, select_earliest, select_leader_pod}
use zen_lead.Director.Reconcile.{is_unhealthy, failover_reason, leader_changed, fast_path}

abbrev pub IsReason : String → Type 0
IsReason reason = (reason ≡ "terminating") ⊎ (reason ≡ "notReady") ⊎ (reason ≡ "noIP")

IsReason-cases : (p : Pod) → is_unhealthy p ≡ true → IsReason (failover_reason "" p)
unfolding is_unhealthy failover_reason
IsReason-cases p h = ground arith

changed_from_none : (q : Option Pod) → leader_changed none q ≡ is_some q
unfolding leader_changed
changed_from_none none = refl
changed_from_none (some q) = refl

module _ ⦃r : Reconciler⦄ (svc : Service) where
  bypassed :
      (pods : List Pod) (t : State)
      → (select_leader_pod svc pods true t).0
        ≡ earliest_ready (get_min_ready_duration svc) (now t).0 pods
  unfolding select_leader_pod select_earliest note_selected now record_event ◌>>=◌
  bypassed pods t = ground arith

  -- A leader that is terminating, not Ready or without an address is given up: the cache names no
  -- leader then, and whenever the next one is selected, stickiness is passed over and it is the
  -- earliest Ready pod at that time. A leader that is found counts as a change, also if it is the same
  -- pod, and a reason is given.
  pub fast_path-failover :
      (p : Pod) (pods : List Pod) (s t : State)
      → is_unhealthy p ≡ true
      → let path = (fast_path svc (some p) s).0 in
        let leader = (select_leader_pod svc pods path.bypass_stickiness t).0 in
        ((leader_from_cache svc (fast_path svc (some p) s).1).0 ≡ none)
        × (leader ≡ earliest_ready (get_min_ready_duration svc) (now t).0 pods)
        × (leader_changed path.current leader ≡ is_some leader)
        × IsReason path.reason
  unfolding fast_path now ◌>>=◌
  fast_path-failover p pods s t h = rw h (
    leader_from_cache-clear svc (now s).1,
    bypassed pods t,
    changed_from_none _,
    IsReason-cases p h,
  )
