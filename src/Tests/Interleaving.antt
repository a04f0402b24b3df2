-- ===== src/Tests/Interleaving.antt =====
-- Two goroutines: a Reconcile caches the service while a pod event sets the access times.
use mathlib.Core.Path.{subst}
use zen_lead.Base.{◌≡◌, refl, true, List}
use zen_lead.Base.Dict.{lookup}
use zen_lead.Kube.Objects.{Key, Object, Service}
use zen_lead.Kube.Errors.{Result, ok, err}
use zen_lead.Director.Reconciler.{State, read_clock, log}
use zen_lead.Director.Naming.{is_enabled}
use zen_lead.Director.ServiceCache.{
  is_cacheable, has_selector, cached_in, write_cached, put_named, touched, map_pod_to_service,
}
use zen_lead.Director.ServiceCache.Sound.{ServicesOnce}
use zen_lead.Director.LeaderPodCache.{Signal, cleanup_leader_pod_cache}
use zen_lead.Director.Reconcile.{reconcile}
use zen_lead.Director.Sections.{Sections, call, put, touch, nothing, next}
use zen_lead.Director.Sections.Sound.{IsSound}
use zen_lead.Director.Sections.Handlers.{
  ListsOnce, orderly, any_calls, handlers-Sections, interleaved-IsSound,
}
use zen_lead.Tests.Cluster.{web, tester, tester_laws, fresh}

abbrev HasOnce : Result (List Service) → Type 0
HasOnce (ok services) = ServicesOnce services
HasOnce (err e) = Unit

tester_once : ListsOnce tester
tester_once cs ns services e = subst HasOnce e (refl, tt)

handlers-Sections_example :
    ((req : Key)
      → Sections ⦃r = tester⦄
          (orderly ⦃r = tester⦄ tester_once)
          fresh
          (reconcile ⦃r = tester⦄ req fresh).1)
    × ((x : Object)
        → Sections ⦃r = tester⦄
            (orderly ⦃r = tester⦄ tester_once)
            fresh
            (map_pod_to_service ⦃r = tester⦄ x fresh).1)
    × ((signals : List Signal)
        → Sections ⦃r = tester⦄
            (orderly ⦃r = tester⦄ tester_once)
            fresh
            (cleanup_leader_pod_cache ⦃r = tester⦄ signals fresh).1)
handlers-Sections_example = handlers-Sections ⦃r = tester⦄ tester_laws tester_once fresh

abbrev clock_read : State
clock_read = log read_clock fresh

abbrev cached : State
cached =
    (write_cached "shop"
      (put_named (record { name = "web"; selector = web.selector; last_access = 12 })
        (cached_in "shop" clock_read))
      clock_read).1

abbrev touched_then : State
touched_then = (write_cached "shop" (touched 10 (cached_in "shop" cached)) cached).1

web_cacheable : is_cacheable web ≡ true
unfolding is_cacheable is_enabled has_selector lookup
web_cacheable = refl

steps : Sections ⦃r = tester⦄ (any_calls ⦃r = tester⦄ tester_once) fresh touched_then
steps = next (next (next nothing (call read_clock tt)) (put web 12 web_cacheable)) (touch "shop" 10)

fresh-IsSound : IsSound fresh
unfolding lookup
fresh-IsSound = record { services = λ ns. (tt, tt); leaders = tt }

interleaved-IsSound_example : IsSound touched_then
interleaved-IsSound_example =
    interleaved-IsSound ⦃r = tester⦄ tester_once fresh touched_then fresh-IsSound steps
