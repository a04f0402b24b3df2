-- ===== src/LeaderClient/Answers.antt =====
-- When a pod is told that it is the leader.
use zen_lead.Base.{
  ◌<◌, ◌≡◌, refl, ◌⊎◌, inl, inr, Bool, true, String, Option, none, some, List, arith, str_eq, ltb,
  Bool-cases,
}
use zen_lead.Base.Dict.{lookup}
use zen_lead.Kube.Objects.{Key}
use zen_lead.Kube.Errors.{Result, ok, err}
use zen_lead.LeaderGroup.Objects.{Lease}
use zen_lead.LeaderClient.{
  Lookup, Surroundings, CacheEntry, Client, holds, look, check_cache, answer_with, ask_lease,
  ask_in, ask_own, own_namespace, or_ask, is_leader, namespace_key, ask_valid, trim_space,
  is_leader_with_namespace,
}

module _ ⦃w : Surroundings⦄ where
  -- A lease of this name that the server answered with is held by the pod.
  abbrev pub Holds : Client → String → Type 0
  Holds c pool =
      (ls : List Lookup) × (k : Key) × (x : Lease) × (k.name ≡ pool)
      × (w.get_lease ls k ≡ ok x)
      × (holds c x ≡ true)

  -- A live entry of the cache says that the pod is the leader.
  abbrev pub CachedLeader : Client → String → Type 0
  CachedLeader c key =
      (e : CacheEntry) × (lookup key c.cache ≡ some e)
      × (w.now c.lookups < e.expires)
      × (e.is_leader ≡ true)

  answer_with_sound :
      (key : String) (q : Result Lease) (c : Client)
      → (answer_with key q c).0 ≡ ok true
      → (x : Lease) × (q ≡ ok x) × (holds c x ≡ true)
  answer_with_sound key (err e) c h = cc
  answer_with_sound key (ok x) c h = (x, refl, ground arith)

  ask_lease_sound :
      (key : String) (k : Key) (c : Client) → (ask_lease key k c).0 ≡ ok true → Holds c k.name
  unfolding ask_lease holds
  ask_lease_sound key k c h =
      let (x, e, t) = answer_with_sound key (w.get_lease c.lookups k) _ h in
      (c.lookups, k, x, refl, e, t)

  ask_in_sound :
      (pool : String) (q : Result String) (c : Client)
      → (ask_in pool q c).0 ≡ ok true
      → Holds c pool
  ask_in_sound pool (err e) c h = cc
  ask_in_sound pool (ok ns) c h = ask_lease_sound pool (record { namespace = ns; name = pool }) c h

  ask_own_sound : (pool : String) (c : Client) → (ask_own pool c).0 ≡ ok true → Holds c pool
  unfolding ask_own
  ask_own_sound pool c h = elim (Bool-cases (str_eq c.pod_name "")) [
    | inl e ↦ absurd (ground (arith, rw e at h))
    | inr e ↦ ask_in_sound pool own_namespace c (rw e at h)
  ]

  or_ask_sound :
      (ask : Client → Result Bool × Client) (o : Option CacheEntry) (c : Client)
      → (or_ask ask (look o c)).0 ≡ ok true
      → ((e : CacheEntry) × (o ≡ some e) × (w.now c.lookups < e.expires) × (e.is_leader ≡ true))
        ⊎ ((d : Client) × (d.pod_name ≡ c.pod_name)
            × (d.pod_uid ≡ c.pod_uid)
            × ((ask d).0 ≡ ok true))
  or_ask_sound ask none c h = inr (c, refl, refl, h)
  or_ask_sound ask (some e) c h = elim (Bool-cases (ltb (w.now c.lookups) e.expires)) [
    | inl b ↦ inl (e, refl, ground (arith, b), ground (arith, rw b at h))
    | inr b ↦ inr (_, refl, refl, rw b at h)
  ]

  Holds-same :
      (c d : Client) (pool : String)
      → d.pod_name ≡ c.pod_name
      → d.pod_uid ≡ c.pod_uid
      → Holds d pool
      → Holds c pool
  unfolding holds
  Holds-same c d pool n u (ls, k, x, e, f, t) = (ls, k, x, e, f, rw (← n, ← u) t)

  -- A pod is told that it is the leader of a pool only if a live entry of the cache says so, or the
  -- server answered with a lease of the pool's name that the pod holds.
  pub is_leader_sound :
      (pool : String) (c : Client)
      → (is_leader pool c).0 ≡ ok true
      → CachedLeader c pool ⊎ Holds c pool
  unfolding is_leader check_cache
  is_leader_sound pool c h = elim (or_ask_sound (ask_own pool) (lookup pool c.cache) c h) [
    | inl x ↦ inl x
    | inr (d, n, u, k) ↦ inr (Holds-same c d pool n u (ask_own_sound pool d k))
  ]

  ask_valid_sound :
      (pool ns : String) (c : Client)
      → (ask_valid pool ns c).0 ≡ ok true
      → CachedLeader c (namespace_key ns pool) ⊎ Holds c pool
  unfolding ask_valid check_cache
  ask_valid_sound pool ns c h = elim (Bool-cases (w.is_dns1123_label ns)) [
    | inr e ↦ absurd (ground (arith, rw e at h))
    | inl e ↦ elim (Bool-cases (w.is_dns1123_subdomain pool)) [
      | inr f ↦ absurd (ground (arith, rw (e, f) at h))
      | inl f ↦ elim (Bool-cases (str_eq c.pod_name "")) [
        | inl g ↦ absurd (ground (arith, rw (e, f, g) at h))
        | inr g ↦
            let k : Key = record { namespace = ns; name = pool } in
            elim (or_ask_sound (ask_lease (namespace_key ns pool) k)
              (lookup (namespace_key ns pool) c.cache) c (rw (e, f, g) at h)) [
                | inl x ↦ inl x
                | inr (d, n, u, t) ↦
                    inr (Holds-same c d pool n u (ask_lease_sound (namespace_key ns pool) k d t))
              ]
      ]
    ]
  ]

  -- The same with a namespace, whose spaces are trimmed: the entry of the cache is then that of the
  -- namespace and the pool.
  pub is_leader_with_namespace_sound :
      (pool ns : String) (c : Client)
      → (is_leader_with_namespace pool ns c).0 ≡ ok true
      → CachedLeader c (namespace_key (trim_space ns) pool) ⊎ Holds c pool
  unfolding is_leader_with_namespace
  is_leader_with_namespace_sound pool ns c h = ask_valid_sound pool (trim_space ns) c h

  -- The client holds the same answers as before.
  abbrev pub SameCache : Client → Result Bool × Client → Type 0
  SameCache c (ok b, d) = Unit
  SameCache c (err e, d) = d.cache ≡ c.cache

  answer_with-SameCache :
      (key : String) (q : Result Lease) (c : Client) → SameCache c (answer_with key q c)
  answer_with-SameCache key (ok x) c = tt
  answer_with-SameCache key (err e) c = refl

  ask_in-SameCache :
      (pool : String) (q : Result String) (c : Client) → SameCache c (ask_in pool q c)
  unfolding ask_lease
  ask_in-SameCache pool (err e) c = refl
  ask_in-SameCache pool (ok ns) c = answer_with-SameCache pool _ (record c { lookups = _ })

  ask_own-SameCache : (pool : String) (c : Client) → SameCache c (ask_own pool c)
  unfolding ask_own
  ask_own-SameCache pool c = elim (Bool-cases (str_eq c.pod_name "")) [
    | inl e ↦ rw e refl
    | inr e ↦ rw e (ask_in-SameCache pool own_namespace c)
  ]

  look-SameCache :
      (ask : Client → Result Bool × Client) (o : Option CacheEntry) (c : Client)
      → ((d : Client) → SameCache d (ask d))
      → SameCache c (or_ask ask (look o c))
  look-SameCache ask none c k = k c
  look-SameCache ask (some e) c k = elim (Bool-cases (ltb (w.now c.lookups) e.expires)) [
    | inl b ↦ rw b tt
    | inr b ↦ rw b (k _)
  ]

  -- An error is not cached: the answers that the client holds are those from before.
  pub is_leader-SameCache : (pool : String) (c : Client) → SameCache c (is_leader pool c)
  unfolding is_leader check_cache
  is_leader-SameCache pool c =
      look-SameCache (ask_own pool) (lookup pool c.cache) c (ask_own-SameCache pool)
