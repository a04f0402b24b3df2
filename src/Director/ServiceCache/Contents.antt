-- ===== src/Director/ServiceCache/Contents.antt =====
-- What the cache of opted-in services holds after an update for one service and after a refresh.
use zen_lead.Base.{
  ◌≡◌, refl, inl, inr, true, false, not, ◌&&◌, ◌||◌, String, List, [], ◌∷◌, arith, Bool-cases,
  str_eq, eq_iff, if◌then◌else◌,
}
use mathlib.Core.Option
use zen_lead.Base.Dict.{Dict, lookup, insert, lookup-insert}
use zen_lead.Kube.Objects.{Service}
use zen_lead.Director.Reconciler.{Reconciler, CachedService, State, ◌>>=◌}
use zen_lead.Director.Calls.{now}
use zen_lead.Director.Naming.{is_enabled}
use zen_lead.Director.ServiceCache.{
  has_selector, is_cacheable, cached_in, is_cached, remove_named, put_named, remove_service,
  put_service, update_opted_in_services_cache_for_service,
}

-- No two entries have the same name.
abbrev pub NamesOnce : List CachedService → Type 0
NamesOnce [] = Unit
NamesOnce (c ∷ cs) = (is_cached c.name cs ≡ false) × NamesOnce cs

is_cached-remove_named :
    (name other : String) (cs : List CachedService)
    → NamesOnce cs
    → is_cached other (remove_named name cs) ≡ (not (str_eq name other) && is_cached other cs)
unfolding is_cached remove_named
is_cached-remove_named name other [] h = ground arith
is_cached-remove_named name other (c ∷ cs) h = ground (
  arith,
  eq_iff c.name name,
  eq_iff c.name other,
  eq_iff name other,
  h.0,
  is_cached-remove_named name other cs h.1,
)

is_cached-put_named :
    (x : CachedService) (other : String) (cs : List CachedService)
    → is_cached other (put_named x cs) ≡ (str_eq x.name other || is_cached other cs)
unfolding is_cached put_named
is_cached-put_named x other [] = ground arith
is_cached-put_named x other (c ∷ cs) = ground (
  arith,
  eq_iff c.name x.name,
  eq_iff c.name other,
  eq_iff x.name other,
  is_cached-put_named x other cs,
)

pub remove_named-NamesOnce :
    (name : String) (cs : List CachedService) → NamesOnce cs → NamesOnce (remove_named name cs)
unfolding remove_named
remove_named-NamesOnce name [] h = tt
remove_named-NamesOnce name (c ∷ cs) h = elim (Bool-cases (str_eq c.name name)) [
  | inl e ↦ rw e (h.1)
  | inr e ↦ rw e (
    ground (arith, is_cached-remove_named name c.name cs h.1, h.0),
    remove_named-NamesOnce name cs h.1,
  )
]

pub put_named-NamesOnce :
    (x : CachedService) (cs : List CachedService) → NamesOnce cs → NamesOnce (put_named x cs)
unfolding put_named
put_named-NamesOnce x [] h = (unfold is_cached in refl, tt)
put_named-NamesOnce x (c ∷ cs) h = elim (Bool-cases (str_eq c.name x.name)) [
  | inl e ↦ rw e (rw (← (eq_iff c.name x.name).0 e) (h.0), h.1)
  | inr e ↦ rw e (
    ground
        (arith, is_cached-put_named x c.name cs, eq_iff c.name x.name, eq_iff x.name c.name, h.0),
    put_named-NamesOnce x cs h.1,
  )
]

pub cached_in-insert :
    (ns other : String) (cs : List CachedService) (m : Dict (List CachedService))
    → Option.get_or (lookup other (insert ns cs m)) []
      ≡ (if str_eq ns other then cs else Option.get_or (lookup other m) [])
cached_in-insert ns other cs m = ground (arith, lookup-insert ns other cs m)

module _ ⦃r : Reconciler⦄ (svc : Service) where
  remove_service-is_cached :
      (s : State) (ns name : String)
      → NamesOnce (cached_in svc.namespace s)
      → is_cached name (cached_in ns (remove_service svc s).1) ≡ (
          if str_eq svc.namespace ns && str_eq svc.name name
          then false
          else is_cached name (cached_in ns s))
  unfolding remove_service ◌>>=◌
  remove_service-is_cached s ns name once =
      elim (Bool-cases (is_cached svc.name (cached_in svc.namespace s))) [
        | inl e ↦ rw e (
            ground (
              arith,
              cached_in-insert svc.namespace ns (remove_named svc.name (cached_in svc.namespace s))
                  s.opted_in_services_cache,
              is_cached-remove_named svc.name name (cached_in svc.namespace s) once,
              eq_iff svc.namespace ns,
            ))
        | inr e ↦ rw e (ground (arith, eq_iff svc.namespace ns, eq_iff svc.name name))
      ]

  put_service-is_cached :
      (s : State) (ns name : String)
      → is_cached name (cached_in ns (put_service svc s).1) ≡ (
          if str_eq svc.namespace ns && str_eq svc.name name
          then true
          else is_cached name (cached_in ns s))
  unfolding put_service ◌>>=◌ now
  put_service-is_cached s ns name = ground (
    arith,
    cached_in-insert svc.namespace ns
        (put_named
          (record { name = svc.name; selector = svc.selector; last_access = r.client.now s.calls })
          (cached_in svc.namespace s))
        s.opted_in_services_cache,
    is_cached-put_named
        (record { name = svc.name; selector = svc.selector; last_access = r.client.now s.calls })
        name (cached_in svc.namespace s),
    eq_iff svc.namespace ns,
  )

  -- After the update for a service it is in the cache of its namespace exactly if it is opted in
  -- and has a selector; every other service, and every other namespace, is cached as before.
  pub update_for_service-is_cached :
      (s : State) (ns name : String)
      → NamesOnce (cached_in svc.namespace s)
      → is_cached name (cached_in ns (update_opted_in_services_cache_for_service svc s).1) ≡ (
          if str_eq svc.namespace ns && str_eq svc.name name
          then is_cacheable svc
          else is_cached name (cached_in ns s))
  unfolding update_opted_in_services_cache_for_service is_cacheable
  update_for_service-is_cached s ns name once =
      ground (arith, remove_service-is_cached s ns name once, put_service-is_cached s ns name)

  insert-NamesOnce :
      (cs : List CachedService) (m : Dict (List CachedService)) (ns : String)
      → NamesOnce cs
      → NamesOnce (Option.get_or (lookup ns m) [])
      → NamesOnce (Option.get_or (lookup ns (insert svc.namespace cs m)) [])
  insert-NamesOnce cs m ns k h = elim (Bool-cases (str_eq svc.namespace ns)) [
    | inl e ↦ rw (cached_in-insert svc.namespace ns cs m, e) k
    | inr e ↦ rw (cached_in-insert svc.namespace ns cs m, e) h
  ]

  remove_service-NamesOnce :
      (s : State) (ns : String)
      → NamesOnce (cached_in svc.namespace s)
      → NamesOnce (cached_in ns s)
      → NamesOnce (cached_in ns (remove_service svc s).1)
  unfolding remove_service ◌>>=◌
  remove_service-NamesOnce s ns own h =
      elim (Bool-cases (is_cached svc.name (cached_in svc.namespace s))) [
        | inl e ↦ rw e (
            insert-NamesOnce _ s.opted_in_services_cache ns (remove_named-NamesOnce svc.name _ own)
              h)
        | inr e ↦ rw e h
      ]

  put_service-NamesOnce :
      (s : State) (ns : String)
      → NamesOnce (cached_in svc.namespace s)
      → NamesOnce (cached_in ns s)
      → NamesOnce (cached_in ns (put_service svc s).1)
  unfolding put_service ◌>>=◌ now
  put_service-NamesOnce s ns own h =
      insert-NamesOnce _ s.opted_in_services_cache ns (put_named-NamesOnce _ _ own) h

  -- The update keeps the names of the entries of every namespace distinct.
  pub update_for_service-NamesOnce :
      (s : State)
      → ((ns : String) → NamesOnce (cached_in ns s))
      → (ns : String)
      → NamesOnce (cached_in ns (update_opted_in_services_cache_for_service svc s).1)
  unfolding update_opted_in_services_cache_for_service
  update_for_service-NamesOnce s once ns = elim (Bool-cases (is_enabled svc)) [
    | inr e ↦ rw e (remove_service-NamesOnce s ns (once svc.namespace) (once ns))
    | inl e ↦ elim (Bool-cases (has_selector svc)) [
      | inr f ↦ rw (e, f) (remove_service-NamesOnce s ns (once svc.namespace) (once ns))
      | inl f ↦ rw (e, f) (put_service-NamesOnce s ns (once svc.namespace) (once ns))
    ]
  ]
