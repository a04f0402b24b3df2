-- ===== src/Tests/Failover.antt =====
-- A leader that terminates, and a leader service that is left over.
use zen_lead.Base.{◌≡◌, refl, true, none, some, [], ◌∷◌, is_some, All}
use zen_lead.Kube.Objects.{Pod, Service}
use zen_lead.Director.Reconciler.{State, create_service}
use zen_lead.Director.Calls.{now}
use zen_lead.Director.Naming.{get_min_ready_duration}
use zen_lead.Director.LeaderPodCache.{leader_from_cache}
use zen_lead.Director.Select.{earliest_ready, select_leader_pod}
use zen_lead.Director.Reconcile.{leader_changed, is_unhealthy, fast_path}
use zen_lead.Director.Reconcile.Failover.{IsReason, fast_path-failover}
use zen_lead.Director.Cleanup.{cleanup_leader_resources}
use zen_lead.Director.Cleanup.Deletes.{Deleted, leftovers, cleanup_leader_resources-Deleted}
use zen_lead.Tests.Retry.{do_retry-Reports}
use zen_lead.Tests.Cluster.{ready_pod, pods, web, web_key, tester, tester_laws, fresh}

-- It is Ready, and is being deleted.
abbrev leaving_pod : Pod
leaving_pod = record ready_pod { deletion_timestamp = some 15 }

leaving_pod_unhealthy : is_unhealthy leaving_pod ≡ true
unfolding is_unhealthy
leaving_pod_unhealthy = refl

fast_path-failover_example :
    let path = (fast_path ⦃r = tester⦄ web (some leaving_pod) fresh).0 in
    let leader = (select_leader_pod ⦃r = tester⦄ web pods path.bypass_stickiness fresh).0 in
    ((leader_from_cache ⦃r = tester⦄ web (fast_path ⦃r = tester⦄ web (some leaving_pod) fresh).1).0
      ≡ none)
    × (leader
        ≡ earliest_ready (get_min_ready_duration ⦃r = tester⦄ web) (now ⦃r = tester⦄ fresh).0 pods)
    × (leader_changed path.current leader ≡ is_some leader)
    × IsReason path.reason
fast_path-failover_example =
    fast_path-failover ⦃r = tester⦄ web leaving_pod pods fresh fresh leaving_pod_unhealthy

abbrev web_leader : Service
web_leader = record web { name = "web-leader"; selector = [] }

-- The leader service has been written, and the source is not opted in any more.
abbrev disabled : State
disabled = record fresh { calls = create_service web_leader true ∷ [] }

cleanup_leader_resources-Deleted_example :
    All
      (λ x. Deleted x (cleanup_leader_resources ⦃r = tester⦄ web_key disabled).1.calls)
      (leftovers ⦃r = tester⦄ web_key disabled)
cleanup_leader_resources-Deleted_example =
    cleanup_leader_resources-Deleted ⦃r = tester⦄ tester_laws
      (record { reports = do_retry-Reports }) refl (λ cs x. tt) web_key disabled
