-- ===== src/Director/LeaderPodCache/Entries.antt =====
-- What the leader pod cache holds after an update, a clear and a tick of its cleanup.
use zen_lead.Base.{
  ◌≤◌, ℕ, ◌+◌, ◌≡◌, refl, sym, ◌↔◌, inl, inr, Bool, true, false, not, String, Option, none, some,
  [], ◌∷◌, arith, In, Bool-cases, eq_refl, if◌then◌else◌, ltb,
}
use mathlib.Core.Path.{subst}
use zen_lead.Base.Dict.{Dict, insert, filter, lookup-insert, lookup-erase}
use zen_lead.Kube.Objects.{Pod, Service}
use zen_lead.Director.Reconciler.{Reconciler, CachedLeaderPod, State, ◌>>=◌}
use zen_lead.Director.Calls.{now}
use zen_lead.Director.Naming.{cache_key}
use zen_lead.Director.LeaderPodCache.{
  has_expired, clear_leader_pod_cache, store_entry, update_leader_pod_cache, drop_expired,
  cleanup_tick, leader_from_cache, entry_at, unexpired, fetch_again, fetch_cached,
}

-- Filtering keeps exactly the entries that pass.
In-filter :
    {V : Type 0} (p : String → V → Bool) (m : Dict V) (e : String × V)
    → In e (filter p m)
    → In e m × (p e.0 e.1 ≡ true)
unfolding filter
In-filter p [] e h = absurd h
In-filter p ((k, v) ∷ m) e h = elim (Bool-cases (p k v)) [
  | inl b ↦ elim (rw b at h) [
    | inl q ↦ (inl q, subst (λ x. p x.0 x.1 ≡ true) q b)
    | inr t ↦ let (i, c) = In-filter p m e t in (inr i, c)
  ]
  | inr b ↦ let (i, c) = In-filter p m e (rw b at h) in (inr i, c)
]

filter-In :
    {V : Type 0} (p : String → V → Bool) (m : Dict V) (e : String × V)
    → In e m
    → p e.0 e.1 ≡ true
    → In e (filter p m)
unfolding filter
filter-In p [] e h b = absurd h
filter-In p ((k, v) ∷ m) e (inl q) b = rw (subst (λ x. p x.0 x.1 ≡ true) (sym q) b) (inl q)
filter-In p ((k, v) ∷ m) e (inr i) b = elim (Bool-cases (p k v)) [
  | inl c ↦ rw c (inr (filter-In p m e i b))
  | inr c ↦ rw c (filter-In p m e i b)
]

in_time :
    (time : ℕ) (c : CachedLeaderPod) → (not (has_expired time c) ≡ true) ↔ (time ≤ c.expires_at)
in_time time c = ground arith

module _ ⦃r : Reconciler⦄ where
  -- A tick of the cleanup keeps exactly the entries whose time of expiry is not before the time that
  -- the tick reads from the clock.
  pub cleanup_tick-In :
      (s : State) (m : Dict CachedLeaderPod)
      → s.leader_pod_cache ≡ some m
      → (left : Dict CachedLeaderPod) × ((cleanup_tick s).1.leader_pod_cache ≡ some left)
        × ((e : String × CachedLeaderPod)
            → In e left ↔ (In e m × (r.client.now s.calls ≤ e.1.expires_at)))
  unfolding cleanup_tick drop_expired ◌>>=◌ now
  cleanup_tick-In s m on =
      let live : String → CachedLeaderPod → Bool =
        λ k c. not (has_expired (r.client.now s.calls) c) in
      (
        filter live m,
        rw on refl,
        λ e. (
          λ h. let (i, c) = In-filter live m e h in (i, (in_time _ e.1).0 c),
          λ h. filter-In live m e (h.0) ((in_time _ e.1).1 (h.1)),
        ),
      )

  entry_at-insert :
      (key : String) (e : CachedLeaderPod) (m : Dict CachedLeaderPod)
      → entry_at key (some (insert key e m)) ≡ some e
  entry_at-insert key e m = rw (lookup-insert key key e m, eq_refl key) refl

  unexpired-some :
      (e : CachedLeaderPod) (s : State)
      → (unexpired (some e) s).0
        ≡ (if ltb (r.client.now s.calls) e.expires_at then some e else none)
  unfolding ◌>>=◌ now
  unexpired-some e s = refl

  fetch_cached-if :
      (svc : Service) (test : Bool) (e : CachedLeaderPod) (s : State)
      → (fetch_cached svc (if test then some e else none) s).0 ≡ (
          if test
          then (fetch_again svc "get_pod_cached" e.pod.namespace e.pod.name e.pod.uid s).0
          else none)
  unfolding fetch_cached ◌>>=◌
  fetch_cached-if svc true e s = refl
  fetch_cached-if svc false e s = refl

  -- A leader that has been cached is read again, by its name and its UID, until its time has
  -- passed, and from then on the cache gives no leader. Both are by the clock at the next look.
  pub leader_from_cache-update_leader_pod_cache :
      (svc : Service) (pod : Pod) (ttl : ℕ) (s : State) (m : Dict CachedLeaderPod)
      → s.leader_pod_cache ≡ some m
      → (leader_from_cache svc
          (update_leader_pod_cache (cache_key svc.namespace svc.name) pod ttl s).1).0
        ≡ (let t = (update_leader_pod_cache (cache_key svc.namespace svc.name) pod ttl s).1 in
            if ltb (now t).0 ((now s).0 + ttl)
            then (fetch_again svc "get_pod_cached" pod.namespace pod.name pod.uid (now t).1).0
            else none)
  unfolding leader_from_cache update_leader_pod_cache store_entry ◌>>=◌ now
  leader_from_cache-update_leader_pod_cache svc pod ttl s m on =
      rw
        (
          on,
          entry_at-insert (cache_key svc.namespace svc.name)
              (record {
                pod = pod;
                expires_at = r.client.now s.calls + ttl;
                service_key = cache_key svc.namespace svc.name;
              })
              m,
        )
        (fetch_cached-if svc _ _ _)

  -- Once the entry of a service is cleared, no leader of it comes from the cache.
  pub leader_from_cache-clear :
      (svc : Service) (s : State)
      → (leader_from_cache svc (clear_leader_pod_cache (cache_key svc.namespace svc.name) s).1).0
        ≡ none
  unfolding leader_from_cache clear_leader_pod_cache ◌>>=◌
  leader_from_cache-clear svc s = at_cache s.leader_pod_cache refl
    where
      at_cache :
          (o : Option (Dict CachedLeaderPod))
          → s.leader_pod_cache ≡ o
          → (leader_from_cache svc
              (clear_leader_pod_cache (cache_key svc.namespace svc.name) s).1).0
            ≡ none
      at_cache none e = rw e refl
      at_cache (some m) e =
          rw
            (
              e,
              lookup-erase (cache_key svc.namespace svc.name) (cache_key svc.namespace svc.name) m,
              eq_refl (cache_key svc.namespace svc.name),
            )
            refl
