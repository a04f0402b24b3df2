-- ===== src/Director/Sections/Sound.antt =====
-- What every order of calls and critical sections keeps of the two caches.
use zen_lead.Base.{
  ◌≡◌, refl, inl, inr, String, Bool, Option, none, some, List, [], ◌∷◌, All, Bool-cases, str_eq,
}
use zen_lead.Base.Dict.{Dict, insert, erase, filter}
use zen_lead.Kube.Objects.{Service}
use zen_lead.Director.Reconciler.{CachedLeaderPod, CachedService, Reconciler, State}
use zen_lead.Director.ServiceCache.{cached_in, write_cached}
use zen_lead.Director.ServiceCache.Contents.{cached_in-insert}
use zen_lead.Director.ServiceCache.Sound.{
  IsSoundCache, ServicesOnce, cacheable-Selects, remove_named-IsSoundCache, put_named-IsSoundCache,
  touched-IsSoundCache, limit_entries-IsSoundCache, cache_entries-IsSoundCache,
}
use zen_lead.Director.LeaderPodCache.{on_cache}
use zen_lead.Director.Sections.{
  Terms, Section, call, remove, put, refresh, touch, store_leader, clear_leader, drop_leaders,
  Sections, nothing, next,
}

-- Each leader stands under the key of its service.
abbrev pub IsUnderItsKey : String × CachedLeaderPod → Type 0
IsUnderItsKey e = e.1.service_key ≡ e.0

abbrev pub AreUnderTheirKeys : Option (Dict CachedLeaderPod) → Type 0
AreUnderTheirKeys none = Unit
AreUnderTheirKeys (some m) = All IsUnderItsKey m

pub record IsSound (s : State) : Type 0 where
  pub services : (ns : String) → IsSoundCache (cached_in ns s)
  pub leaders : AreUnderTheirKeys s.leader_pod_cache

module _ {V : Type 0} (P : String × V → Type 0) where
  insert-All : (k : String) (v : V) (m : Dict V) → P (k, v) → All P m → All P (insert k v m)
  unfolding insert
  insert-All k v [] p h = (p, tt)
  insert-All k v ((j, w) ∷ m) p h = elim (Bool-cases (str_eq j k)) [
    | inl e ↦ rw e (p, h.1)
    | inr e ↦ rw e (h.0, insert-All k v m p h.1)
  ]

  erase-All : (k : String) (m : Dict V) → All P m → All P (erase k m)
  unfolding erase
  erase-All k [] h = tt
  erase-All k ((j, w) ∷ m) h = elim (Bool-cases (str_eq j k)) [
    | inl e ↦ rw e (erase-All k m h.1)
    | inr e ↦ rw e (h.0, erase-All k m h.1)
  ]

  filter-All : (p : String → V → Bool) (m : Dict V) → All P m → All P (filter p m)
  unfolding filter
  filter-All p [] h = tt
  filter-All p ((j, w) ∷ m) h = elim (Bool-cases (p j w)) [
    | inl e ↦ rw e (h.0, filter-All p m h.1)
    | inr e ↦ rw e (filter-All p m h.1)
  ]

write_cached-IsSound :
    (ns : String) (cs : List CachedService) (s : State)
    → IsSoundCache cs
    → IsSound s
    → IsSound (write_cached ns cs s).1
write_cached-IsSound ns cs s c h = record {
  services = λ other. elim (Bool-cases (str_eq ns other)) [
    | inl e ↦ rw (cached_in-insert ns other cs s.opted_in_services_cache, e) c
    | inr e ↦ rw (cached_in-insert ns other cs s.opted_in_services_cache, e) (h.services other)
  ];
  leaders = h.leaders;
}

on_cache-IsSound :
    (f : Dict CachedLeaderPod → Dict CachedLeaderPod) (s : State)
    → ((m : Dict CachedLeaderPod) → All IsUnderItsKey m → All IsUnderItsKey (f m))
    → IsSound s
    → IsSound (on_cache f s)
on_cache-IsSound f s keeps h = record {
  services = h.services;
  leaders = at_cache s.leader_pod_cache h.leaders;
}
  where
    at_cache :
        (o : Option (Dict CachedLeaderPod))
        → AreUnderTheirKeys o
        → AreUnderTheirKeys (elim o [ none ↦ none | some m ↦ some (f m) ])
    at_cache none k = tt
    at_cache (some m) k = keeps m k

module _ ⦃r : Reconciler⦄ {terms : Terms}
    (once : (services : List Service) → terms.Listing services → ServicesOnce services) where
  Section-IsSound : {s u : State} → Section terms s u → IsSound s → IsSound u
  Section-IsSound (call c a) h = record { services = h.services; leaders = h.leaders }
  Section-IsSound {s} (remove svc) h =
      write_cached-IsSound svc.namespace _ s
        (remove_named-IsSoundCache svc.name _ (h.services svc.namespace)) h
  Section-IsSound {s} (put svc time c) h =
      write_cached-IsSound svc.namespace _ s
        (put_named-IsSoundCache _ _ (cacheable-Selects svc c) (h.services svc.namespace)) h
  Section-IsSound {s} (refresh ns services u l) h =
      write_cached-IsSound ns _ s
        (limit_entries-IsSoundCache _ (cache_entries-IsSoundCache services u (once services l))) h
  Section-IsSound {s} (touch ns time) h =
      write_cached-IsSound ns _ s (touched-IsSoundCache time _ (h.services ns)) h
  Section-IsSound {s} (store_leader key pod until) h =
      on_cache-IsSound _ s (λ m. insert-All IsUnderItsKey key _ m refl) h
  Section-IsSound {s} (clear_leader key) h = on_cache-IsSound _ s (erase-All IsUnderItsKey key) h
  Section-IsSound {s} (drop_leaders time) h = on_cache-IsSound _ s (filter-All IsUnderItsKey _) h

  -- Whatever the goroutines do to the caches, section by section and in any order: as long as the server
  -- lists each name once in a namespace, in the cache of every namespace each name stands once and
  -- no selector is empty, and each cached leader stands under the key of its service.
  pub Sections-IsSound : {s u : State} → Sections terms s u → IsSound s → IsSound u
  Sections-IsSound nothing h = h
  Sections-IsSound (next a b) h = Section-IsSound b (Sections-IsSound a h)
