-- ===== src/Director/Sections/Handlers.antt =====
-- Every handler that goroutines run at the same time, as calls and critical sections.
use zen_lead.Base.{◌≡◌, String, List, []}
use zen_lead.Kube.Objects.{Key, Object, Service}
use zen_lead.Kube.Errors.{ok}
use zen_lead.Director.Reconciler.{Calls, Reconciler, State}
use zen_lead.Director.Retry.Laws.{RetryLaws}
use zen_lead.Director.Single.{IsSingle, quiet-IsSingle}
use zen_lead.Director.Single.Runs.{reconcile-Does}
use zen_lead.Director.ServiceCache.{map_pod_to_service}
use zen_lead.Director.ServiceCache.Reads.{map_pod_to_service-Does}
use zen_lead.Director.ServiceCache.Sound.{ServicesOnce}
use zen_lead.Director.LeaderPodCache.{Signal, cleanup_leader_pod_cache}
use zen_lead.Director.LeaderPodCache.Reads.{cleanup_leader_pod_cache-Does}
use zen_lead.Director.Reconcile.{reconcile}
use zen_lead.Director.Sections.{Terms, Sections, nothing}
use zen_lead.Director.Sections.Sound.{IsSound, Sections-IsSound}

-- Within a namespace a name belongs to one service, so a listing has it once.
abbrev pub ListsOnce : Reconciler → Type 0
ListsOnce r =
    (cs : Calls) (ns : String) (services : List Service)
    → r.client.list_services cs ns [] ≡ ok services
    → ServicesOnce services

-- Writes that leave a single target, and listings with each name once.
abbrev pub orderly : ⦃r : Reconciler⦄ → ListsOnce r → Terms
orderly once = record {
  Allowed = IsSingle;
  Listing = ServicesOnce;
  quiet = quiet-IsSingle;
  listed = once;
}

module _ ⦃r : Reconciler⦄ (laws : RetryLaws r) (once : ListsOnce r) (s : State) where
  -- Where each listing of a namespace has a name once, and retry.Do only runs its function as
  -- RetryLaws says: Reconcile, mapPodToService and the loop of cleanupLeaderPodCache do nothing to the
  -- shared state but calls whose writes leave traffic with a single target, and critical sections.
  -- Each is a sequence of these, whatever else the server answers.
  pub handlers-Sections :
      ((req : Key) → Sections (orderly once) s (reconcile req s).1)
      × ((x : Object) → Sections (orderly once) s (map_pod_to_service x s).1)
      × ((signals : List Signal) → Sections (orderly once) s (cleanup_leader_pod_cache signals s).1)
  handlers-Sections = (
    λ req. (reconcile-Does laws (λ c a. a) req).at s s nothing,
    λ x. (map_pod_to_service-Does laws x).at s s nothing,
    λ signals. (cleanup_leader_pod_cache-Does laws signals).at s s nothing,
  )

-- Any calls, and listings with each name once.
abbrev pub any_calls : ⦃r : Reconciler⦄ → ListsOnce r → Terms
any_calls once = record {
  Allowed = λ c. Unit {0};
  Listing = ServicesOnce;
  quiet = λ c q. tt;
  listed = once;
}

-- Where each listing of a namespace has a name once: in every state that calls of any kind and
-- critical sections of any goroutines lead to, in any order, the caches are sound, if they were. In
-- each namespace a name is cached once and with a selector that is not empty, and each cached leader
-- stands under the key of its service.
pub interleaved-IsSound :
    ⦃r : Reconciler⦄ (once : ListsOnce r) (s u : State)
    → IsSound s
    → Sections (any_calls once) s u
    → IsSound u
interleaved-IsSound once s u sound steps = Sections-IsSound (λ services h. h) steps sound
