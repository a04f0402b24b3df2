-- ===== src/Director/ServiceCache/Sound.antt =====
-- A cache of opted-in services in which every name stands once and every entry selects something.
use zen_lead.Base.{
  ℕ, zero, suc, ◌≡◌, ◌≢◌, refl, ◌∙◌, inl, inr, true, false, ◌||◌, String, List, [], ◌∷◌, All, take,
  length, arith, Bool, Bool-cases, str_eq, eq_iff, ◌&&◌,
}
use zen_lead.Base.Int.{pos, is_pos, ltz}
use zen_lead.Base.Sort.{insert_sorted, sort_slice}
use zen_lead.Kube.Objects.{Service}
use zen_lead.Director.Reconciler.{Reconciler, CachedService, State, ◌>>=◌}
use zen_lead.Director.Calls.{now}
use zen_lead.Director.ServiceCache.{
  has_selector, is_cacheable, is_cached, remove_named, put_named, touched, make_entry,
  cache_entries, limit_entries, accessed_after,
}
use zen_lead.Director.ServiceCache.Contents.{NamesOnce, remove_named-NamesOnce, put_named-NamesOnce}

-- A selector that is empty would match every pod.
abbrev pub Selects : CachedService → Type 0
Selects c = c.selector ≢ []

abbrev pub IsSoundCache : List CachedService → Type 0
IsSoundCache cs = NamesOnce cs × All Selects cs

-- No two services have the same name, as the API server has it in a namespace.
abbrev pub has_service : String → List Service → Bool
has_service name [] = false
has_service name (svc ∷ rest) = str_eq svc.name name || has_service name rest

abbrev pub ServicesOnce : List Service → Type 0
ServicesOnce [] = Unit
ServicesOnce (svc ∷ rest) = (has_service svc.name rest ≡ false) × ServicesOnce rest

has_selector-Selects : (svc : Service) → has_selector svc ≡ true → svc.selector ≢ []
unfolding has_selector
has_selector-Selects svc h e = cc (h, e)

pub cacheable-Selects : (svc : Service) → is_cacheable svc ≡ true → svc.selector ≢ []
unfolding is_cacheable
cacheable-Selects svc h = has_selector-Selects svc (ground (arith, h))

remove_named-All :
    (name : String) (cs : List CachedService) → All Selects cs → All Selects (remove_named name cs)
unfolding remove_named
remove_named-All name [] h = tt
remove_named-All name (c ∷ cs) h = elim (Bool-cases (str_eq c.name name)) [
  | inl e ↦ rw e (h.1)
  | inr e ↦ rw e (h.0, remove_named-All name cs h.1)
]

put_named-All :
    (x : CachedService) (cs : List CachedService)
    → Selects x
    → All Selects cs
    → All Selects (put_named x cs)
unfolding put_named
put_named-All x [] p h = (p, tt)
put_named-All x (c ∷ cs) p h = elim (Bool-cases (str_eq c.name x.name)) [
  | inl e ↦ rw e (p, h.1)
  | inr e ↦ rw e (h.0, put_named-All x cs p h.1)
]

pub remove_named-IsSoundCache :
    (name : String) (cs : List CachedService)
    → IsSoundCache cs
    → IsSoundCache (remove_named name cs)
remove_named-IsSoundCache name cs h =
    (remove_named-NamesOnce name cs h.0, remove_named-All name cs h.1)

pub put_named-IsSoundCache :
    (x : CachedService) (cs : List CachedService)
    → Selects x
    → IsSoundCache cs
    → IsSoundCache (put_named x cs)
put_named-IsSoundCache x cs p h = (put_named-NamesOnce x cs h.0, put_named-All x cs p h.1)

is_cached-touched :
    (time : ℕ) (name : String) (cs : List CachedService)
    → is_cached name (touched time cs) ≡ is_cached name cs
unfolding is_cached touched
is_cached-touched time name [] = refl
is_cached-touched time name (c ∷ cs) = rw (is_cached-touched time name cs) refl

pub touched-IsSoundCache :
    (time : ℕ) (cs : List CachedService) → IsSoundCache cs → IsSoundCache (touched time cs)
unfolding touched
touched-IsSoundCache time [] h = h
touched-IsSoundCache time (c ∷ cs) ((e, once), (p, ps)) =
    let (once', ps') = touched-IsSoundCache time cs (once, ps) in
    ((is_cached-touched time c.name cs ∙ e, once'), (p, ps'))

-- Sorting and cutting off.
module _ (less : CachedService → CachedService → Bool) where
  is_cached-insert_sorted :
      (name : String) (x : CachedService) (cs : List CachedService)
      → is_cached name (insert_sorted less x cs) ≡ (str_eq x.name name || is_cached name cs)
  unfolding is_cached insert_sorted
  is_cached-insert_sorted name x [] = refl
  is_cached-insert_sorted name x (c ∷ cs) = elim (Bool-cases (less x c)) [
    | inl e ↦ rw e refl
    | inr e ↦ rw (e, is_cached-insert_sorted name x cs) (ground arith)
  ]

  insert_sorted-IsSoundCache :
      (x : CachedService) (cs : List CachedService)
      → is_cached x.name cs ≡ false
      → Selects x
      → IsSoundCache cs
      → IsSoundCache (insert_sorted less x cs)
  unfolding insert_sorted is_cached
  insert_sorted-IsSoundCache x [] e p h = ((refl, tt), (p, tt))
  insert_sorted-IsSoundCache x (c ∷ cs) e p ((f, once), (q, qs)) = elim (Bool-cases (less x c)) [
    | inl l ↦ rw l ((e, (f, once)), (p, (q, qs)))
    | inr l ↦
        let (once', qs') = insert_sorted-IsSoundCache x cs (ground (arith, e)) p (once, qs) in
        rw l (
          (
            ground (
              arith,
              is_cached-insert_sorted c.name x cs,
              e,
              f,
              eq_iff c.name x.name,
              eq_iff x.name c.name,
            ),
            once',
          ),
          (q, qs'),
        )
  ]

  is_cached-sort_slice :
      (name : String) (cs : List CachedService)
      → is_cached name (sort_slice less cs) ≡ is_cached name cs
  unfolding is_cached sort_slice
  is_cached-sort_slice name [] = refl
  is_cached-sort_slice name (c ∷ cs) =
      rw (is_cached-insert_sorted name c (sort_slice less cs), is_cached-sort_slice name cs) refl

  sort_slice-IsSoundCache :
      (cs : List CachedService) → IsSoundCache cs → IsSoundCache (sort_slice less cs)
  unfolding sort_slice
  sort_slice-IsSoundCache [] h = h
  sort_slice-IsSoundCache (c ∷ cs) ((e, once), (p, ps)) =
      insert_sorted-IsSoundCache c (sort_slice less cs) (is_cached-sort_slice c.name cs ∙ e) p
        (sort_slice-IsSoundCache cs (once, ps))

is_cached-take :
    (name : String) (n : ℕ) (cs : List CachedService)
    → is_cached name cs ≡ false
    → is_cached name (take n cs) ≡ false
unfolding is_cached
is_cached-take name zero cs e = refl
is_cached-take name (suc n) [] e = refl
is_cached-take name (suc n) (c ∷ cs) e =
    let rest : is_cached name cs ≡ false = ground (arith, e) in
    ground (arith, e, is_cached-take name n cs rest)

take-IsSoundCache : (n : ℕ) (cs : List CachedService) → IsSoundCache cs → IsSoundCache (take n cs)
take-IsSoundCache zero cs h = (tt, tt)
take-IsSoundCache (suc n) [] h = (tt, tt)
take-IsSoundCache (suc n) (c ∷ cs) ((e, once), (p, ps)) =
    let (once', ps') = take-IsSoundCache n cs (once, ps) in
    ((is_cached-take c.name n cs e, once'), (p, ps'))

module _ ⦃r : Reconciler⦄ where
  pub limit_entries-IsSoundCache :
      (cs : List CachedService) → IsSoundCache cs → IsSoundCache (limit_entries cs)
  unfolding limit_entries
  limit_entries-IsSoundCache cs h =
      elim (Bool-cases (
        is_pos r.max_cache_size_per_namespace
        && ltz r.max_cache_size_per_namespace (pos (length cs)))) [
          | inl e ↦ rw e (take-IsSoundCache _ _ (sort_slice-IsSoundCache accessed_after cs h))
          | inr e ↦ rw e h
        ]

  is_cached-cache_entries :
      (name : String) (services : List Service) (s : State)
      → has_service name services ≡ false
      → is_cached name (cache_entries services s).0 ≡ false
  unfolding cache_entries make_entry ◌>>=◌ now is_cached
  is_cached-cache_entries name [] s e = refl
  is_cached-cache_entries name (svc ∷ rest) s e =
      let left : has_service name rest ≡ false = ground (arith, e) in
      let own : str_eq svc.name name ≡ false = ground (arith, e) in
      elim (Bool-cases (is_cacheable svc)) [
        | inl c ↦ rw (c, own) (is_cached-cache_entries name rest _ left)
        | inr c ↦ rw c (is_cached-cache_entries name rest s left)
      ]

  -- A refresh from services of different names.
  pub cache_entries-IsSoundCache :
      (services : List Service) (s : State)
      → ServicesOnce services
      → IsSoundCache (cache_entries services s).0
  unfolding cache_entries make_entry ◌>>=◌ now
  cache_entries-IsSoundCache [] s h = (tt, tt)
  cache_entries-IsSoundCache (svc ∷ rest) s (e, once) = elim (Bool-cases (is_cacheable svc)) [
    | inl c ↦
        let (once', ps) = cache_entries-IsSoundCache rest _ once in
        rw c ((is_cached-cache_entries svc.name rest _ e, once'), (cacheable-Selects svc c, ps))
    | inr c ↦ rw c (cache_entries-IsSoundCache rest s once)
  ]
