-- ===== src/Director/ServiceCache/Selectors.antt =====
-- The selectors in the cache of opted-in services, after an update for one service.
use mathlib.Core.Path.{subst}
use mathlib.Core.Option.{Option, none, some}
use zen_lead.Base.{
  ◌≡◌, refl, inl, inr, true, false, ◌&&◌, String, List, [], ◌∷◌, arith, Bool-cases, str_eq, eq_iff,
  if◌then◌else◌,
}
use zen_lead.Base.Dict.{Dict}
use zen_lead.Kube.Objects.{Service}
use zen_lead.Director.Reconciler.{Reconciler, CachedService, State, ◌>>=◌}
use zen_lead.Director.Calls.{now}
use zen_lead.Director.Naming.{is_enabled}
use zen_lead.Director.ServiceCache.{
  has_selector, is_cacheable, cached_in, write_cached, is_cached, remove_named, put_named,
  remove_service, put_service, update_opted_in_services_cache_for_service,
}
use zen_lead.Director.ServiceCache.Contents.{NamesOnce, cached_in-insert}

-- The selector under which a name is cached.
abbrev pub selector_of : String → List CachedService → Option (Dict String)
selector_of name [] = none
selector_of name (c ∷ cs) =
    let rest = selector_of name cs in if str_eq c.name name then some c.selector else rest

selector_of_absent :
    (name : String) (cs : List CachedService)
    → is_cached name cs ≡ false
    → selector_of name cs ≡ none
unfolding is_cached
selector_of_absent name [] h = refl
selector_of_absent name (c ∷ cs) h =
    let rest : is_cached name cs ≡ false = ground (arith, h) in
    let own : str_eq c.name name ≡ false = ground (arith, h) in
    rw own (selector_of_absent name cs rest)

selector_of-remove_named :
    (name other : String) (cs : List CachedService)
    → NamesOnce cs
    → selector_of other (remove_named name cs)
      ≡ (if str_eq name other then none else selector_of other cs)
unfolding remove_named
selector_of-remove_named name other [] h = ground arith
selector_of-remove_named name other (c ∷ cs) (e, once) = elim (Bool-cases (str_eq c.name name)) [
  | inl k ↦ elim (Bool-cases (str_eq c.name other)) [
    | inl l ↦
        let same : str_eq name other ≡ true =
          ground (arith, eq_iff c.name name, eq_iff c.name other, eq_iff name other) in
        rw (k, same) (selector_of_absent other cs (rw (← (eq_iff c.name other).0 l) e))
    | inr l ↦
        let differ : str_eq name other ≡ false =
          ground (arith, eq_iff c.name name, eq_iff c.name other, eq_iff name other) in
        rw (k, l, differ) refl
  ]
  | inr k ↦ elim (Bool-cases (str_eq c.name other)) [
    | inl l ↦
        let differ : str_eq name other ≡ false =
          ground (arith, eq_iff c.name name, eq_iff c.name other, eq_iff name other) in
        rw (k, l, differ) refl
    | inr l ↦ rw (k, l) (selector_of-remove_named name other cs once)
  ]
]

selector_of-put_named :
    (x : CachedService) (other : String) (cs : List CachedService)
    → selector_of other (put_named x cs)
      ≡ (if str_eq x.name other then some x.selector else selector_of other cs)
unfolding put_named
selector_of-put_named x other [] = refl
selector_of-put_named x other (c ∷ cs) = elim (Bool-cases (str_eq c.name x.name)) [
  | inl k ↦
      let same : c.name ≡ x.name = (eq_iff c.name x.name).0 k in
      elim (Bool-cases (str_eq x.name other)) [
        | inl l ↦ rw (k, l) refl
        | inr l ↦ let own : str_eq c.name other ≡ false = rw same l in rw (k, l, own) refl
      ]
  | inr k ↦ elim (Bool-cases (str_eq c.name other)) [
    | inl l ↦
        let own : str_eq x.name other ≡ false =
          ground (arith, eq_iff c.name x.name, eq_iff c.name other, eq_iff x.name other) in
        rw (k, l, own) refl
    | inr l ↦ rw (k, l) (selector_of-put_named x other cs)
  ]
]

module _ ⦃r : Reconciler⦄ (svc : Service) where
  -- what a write to the service's namespace leaves in a namespace
  selector_of_written :
      (cs : List CachedService) (s : State) (ns name : String) (found : Option (Dict String))
      → selector_of name cs
        ≡ (if str_eq svc.name name then found else selector_of name (cached_in svc.namespace s))
      → selector_of name (cached_in ns (write_cached svc.namespace cs s).1) ≡ (
          if str_eq svc.namespace ns && str_eq svc.name name
          then found
          else selector_of name (cached_in ns s))
  selector_of_written cs s ns name found h = elim (Bool-cases (str_eq svc.namespace ns)) [
    | inl e ↦
        rw (cached_in-insert svc.namespace ns cs s.opted_in_services_cache, e)
          (subst
            (λ n.
              selector_of name cs
              ≡ (if str_eq svc.name name then found else selector_of name (cached_in n s)))
            ((eq_iff svc.namespace ns).0 e) h)
    | inr e ↦ rw (cached_in-insert svc.namespace ns cs s.opted_in_services_cache, e) refl
  ]

  remove_service-selector_of :
      (s : State) (ns name : String)
      → NamesOnce (cached_in svc.namespace s)
      → selector_of name (cached_in ns (remove_service svc s).1) ≡ (
          if str_eq svc.namespace ns && str_eq svc.name name
          then none
          else selector_of name (cached_in ns s))
  unfolding remove_service ◌>>=◌
  remove_service-selector_of s ns name once =
      elim (Bool-cases (is_cached svc.name (cached_in svc.namespace s))) [
        | inl e ↦ rw e (
            selector_of_written _ s ns name none
              (selector_of-remove_named svc.name name (cached_in svc.namespace s) once))
        | inr e ↦
            rw e (untouched ns name (selector_of_absent svc.name (cached_in svc.namespace s) e))
      ]
    where
      untouched :
          (ns name : String)
          → selector_of svc.name (cached_in svc.namespace s) ≡ none
          → selector_of name (cached_in ns s) ≡ (
              if str_eq svc.namespace ns && str_eq svc.name name
              then none
              else selector_of name (cached_in ns s))
      untouched ns name h = elim (Bool-cases (str_eq svc.namespace ns && str_eq svc.name name)) [
        | inl e ↦
            let same : svc.namespace ≡ ns = (eq_iff svc.namespace ns).0 (ground (arith, e)) in
            let named : svc.name ≡ name = (eq_iff svc.name name).0 (ground (arith, e)) in
            rw e (
              subst (λ n. selector_of n (cached_in ns s) ≡ none) named
                (subst (λ n. selector_of svc.name (cached_in n s) ≡ none) same h))
        | inr e ↦ rw e refl
      ]

  put_service-selector_of :
      (s : State) (ns name : String)
      → selector_of name (cached_in ns (put_service svc s).1) ≡ (
          if str_eq svc.namespace ns && str_eq svc.name name
          then some svc.selector
          else selector_of name (cached_in ns s))
  unfolding put_service ◌>>=◌ now
  put_service-selector_of s ns name = selector_of_written _ s ns name (some svc.selector) (
      selector_of-put_named
        (record { name = svc.name; selector = svc.selector; last_access = r.client.now s.calls })
        name (cached_in svc.namespace s))

  -- Where no name is cached twice in the namespace of a service: after the update for the service it
  -- is cached there, with the selector that it now has, exactly if it is opted in and has a selector.
  -- Every other service, and every service of another namespace, is cached as before: with the
  -- selector it was cached with, or not at all.
  pub update_for_service-selector_of :
      (s : State) (ns name : String)
      → NamesOnce (cached_in svc.namespace s)
      → selector_of name (cached_in ns (update_opted_in_services_cache_for_service svc s).1) ≡ (
          if str_eq svc.namespace ns && str_eq svc.name name
          then (if is_cacheable svc then some svc.selector else none)
          else selector_of name (cached_in ns s))
  unfolding update_opted_in_services_cache_for_service is_cacheable
  update_for_service-selector_of s ns name once = elim (Bool-cases (is_enabled svc)) [
    | inr e ↦ rw e (remove_service-selector_of s ns name once)
    | inl e ↦ elim (Bool-cases (has_selector svc)) [
      | inr f ↦ rw (e, f) (remove_service-selector_of s ns name once)
      | inl f ↦ rw (e, f) (put_service-selector_of s ns name)
    ]
  ]
