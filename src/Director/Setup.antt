-- ===== src/Director/Setup.antt =====
-- service_director.go: SetupWithManager, with the manager's answers as parameters. The watches that it
-- builds are those of Director.Pods.pod_predicate and of Director.ServiceCache.
use zen_lead.Base.{◌≡◌, Bool, ◌&&◌, arith, is_some, if◌then◌else◌}
use zen_lead.Base.Int.{is_pos}
use zen_lead.Kube.Errors.{Result, ok, err, wrap}
use zen_lead.Director.Reconciler.{Client, Libraries, Reconciler, State}
use zen_lead.Director.Constructor.{
  Limits, new_state, new_service_director_reconciler, new_service_director_reconciler-HasLimits,
}

-- what mgr.Add and the builder's Complete answer
pub record ManagerAnswers : Type 0 where
  pub add : Result (Unit {0})
  pub complete : Result (Unit {0})

-- whether the cleanup of the leader pod cache is started
abbrev pub starts_cleanup : ⦃r : Reconciler⦄ → State → Bool
starts_cleanup ⦃r⦄ s = is_some s.leader_pod_cache && is_pos r.leader_pod_cache_ttl

abbrev added : ManagerAnswers → Result (Unit {0}) → Result (Unit {0})
added m (ok u) = m.complete
added m (err e) = err (wrap "failed to add cache cleanup runnable" e)

-- SetupWithManager
unfoldable pub set_up_with_manager : ⦃r : Reconciler⦄ → State → ManagerAnswers → Result (Unit {0})
set_up_with_manager s m = if starts_cleanup s then added m m.add else m.complete

-- The limits that the constructor sets are positive, so the cleanup is started exactly if the cache
-- is on.
pub starts_cleanup-new_state :
    (client : Client) (libraries : Libraries) (l : Limits)
    → starts_cleanup ⦃r = new_service_director_reconciler client libraries l⦄ (new_state l)
      ≡ l.enable_leader_pod_cache
unfolding new_state
starts_cleanup-new_state client libraries l =
    ground (arith, (new_service_director_reconciler-HasLimits client libraries l).ttl)
