-- ===== src/Director/LeaderPodCache/Current.antt =====
-- Where the current leader comes from.
use zen_lead.Base.{
  ℕ, ◌<◌, ◌≤◌, length, ◌≡◌, refl, ◌⊎◌, inl, inr, String, Option, none, some, List, [], ◌∷◌, arith,
  Any, eq_iff,
}
use zen_lead.Kube.Objects.{Key, Pod, Service, Endpoint, EndpointSlice, ObjectReference}
use zen_lead.Kube.Errors.{Result, ok, err}
use zen_lead.Director.Reconciler.{get_slice, Calls, Reconciler, CachedLeaderPod, State, M, ◌>>=◌}
use zen_lead.Director.Calls.{now, fetch_slice}
use zen_lead.Director.Keeps.{Stable, Post, Leads, Leads-value}
use zen_lead.Director.Retry.{retry_do_with_metrics}
use zen_lead.Director.Retry.Laws.{RetryLaws, Leads-retry}
use zen_lead.Director.Sections.Reached.{Does-Keeps}
use zen_lead.Director.LeaderPodCache.Reads.{leader_from_cache-Does, leader_from_endpoints-Does}
use zen_lead.Director.Naming.{cache_key, get_leader_service_name}
use zen_lead.Director.Select.{pod_ref}
use zen_lead.Director.Select.Leader.{RefersTo}
use zen_lead.Director.LeaderPodCache.{
  entry_at, live_entry, unexpired, with_uid, fetch_again, fetch_ref, fetch_cached, found_or,
  from_slice, or_slice, leader_from_cache, leader_from_endpoints, leader_from_slice,
  get_current_leader_pod,
}

with_uid_sound :
    ⦃r : Reconciler⦄ (uid : String) (q : Result Pod) (p : Pod)
    → with_uid uid q ≡ some p
    → uid ≡ p.uid
unfolding with_uid
with_uid_sound uid (err e) p h = cc
with_uid_sound uid (ok q) p h = ground (arith, eq_iff q.uid uid)

-- A live entry of the cache names this UID for the service.
abbrev pub CachedUid : ⦃r : Reconciler⦄ → Service → String → State → Type 0
CachedUid ⦃r⦄ svc uid s =
    (c : CachedLeaderPod) × (entry_at (cache_key svc.namespace svc.name) s.leader_pod_cache
      ≡ some c)
    × (r.client.now s.calls < c.expires_at)
    × (c.pod.uid ≡ uid)

-- The key of the leader service's slice.
abbrev slice_key : ⦃r : Reconciler⦄ → Service → Key
slice_key svc = record { namespace = svc.namespace; name = get_leader_service_name svc }

-- Among the calls after the first n, one has read the leader service's slice, and the server has
-- answered it with this slice.
abbrev pub HasRead : ⦃r : Reconciler⦄ → Service → ℕ → EndpointSlice → Calls → Type 0
HasRead svc n x [] = ⊥
HasRead ⦃r⦄ svc n x (c ∷ earlier) =
    ((c ≡ get_slice (slice_key svc))
      × (n ≤ length earlier)
      × (r.client.get_slice earlier (slice_key svc) ≡ ok x))
    ⊎ HasRead svc n x earlier

-- Such a slice has an endpoint that refers to this UID.
abbrev pub SliceUid : ⦃r : Reconciler⦄ → Service → String → ℕ → Calls → Type 0
SliceUid svc uid n calls =
    (x : EndpointSlice) × HasRead svc n x calls × Any (RefersTo uid) x.endpoints

abbrev Since : ℕ → Calls → Type 0
Since n cs = n ≤ length cs

Since-Stable : (n : ℕ) → Stable (Since n)
Since-Stable n c cs q h = omega (arith, h)

HasRead-Stable :
    ⦃r : Reconciler⦄ (svc : Service) (n : ℕ) (x : EndpointSlice) → Stable (HasRead svc n x)
HasRead-Stable svc n x c cs q h = inr h

module _ ⦃r : Reconciler⦄ (laws : RetryLaws r) (svc : Service) (n : ℕ) where
  fetch_slice-HasRead :
      Leads (Since n) (Since n) (fetch_slice (slice_key svc)) (λ x. HasRead svc n x)
  unfolding fetch_slice
  fetch_slice-HasRead = record {
    to = λ s h. at_answer s.calls (r.client.get_slice s.calls (slice_key svc)) h refl;
  }
    where
      at_answer :
          (cs : Calls) (q : Result EndpointSlice)
          → Since n cs
          → r.client.get_slice cs (slice_key svc) ≡ q
          → Post (Since n) (λ x. HasRead svc n x) q (get_slice (slice_key svc) ∷ cs)
      at_answer cs (ok x) h e = inl (refl, h, e)
      at_answer cs (err x) h e = omega (arith, h)

  retried-HasRead :
      (op : String)
      → Leads
          (Since n)
          (Since n)
          (retry_do_with_metrics r.fast_retry_config
            (fetch_slice (slice_key svc))
            svc.namespace
            svc.name
            op)
          (λ x. HasRead svc n x)
  retried-HasRead op =
      Leads-retry laws (Since-Stable n) (λ x. HasRead svc n x) (HasRead-Stable svc n) _ _
        svc.namespace svc.name op fetch_slice-HasRead

  fetch_again_sound :
      (op ns name uid : String) (s : State) (p : Pod)
      → (fetch_again svc op ns name uid s).0 ≡ some p
      → uid ≡ p.uid
  unfolding fetch_again ◌>>=◌
  fetch_again_sound op ns name uid s p h = with_uid_sound uid _ p h

  fetch_ref_sound :
      (o : Option ObjectReference) (s : State) (p : Pod)
      → (fetch_ref svc o s).0 ≡ some p
      → (t : ObjectReference) × (o ≡ some t) × (t.uid ≡ p.uid)
  unfolding ◌>>=◌
  fetch_ref_sound none s p h = cc
  fetch_ref_sound (some t) s p h =
      (t, refl, fetch_again_sound "get_pod" t.namespace t.name t.uid s p h)

  found_or_sound :
      (rest : M (Option Pod)) (o : Option Pod) (s : State) (p : Pod)
      → (found_or svc rest o s).0 ≡ some p
      → (o ≡ some p) ⊎ ((rest s).0 ≡ some p)
  unfolding found_or ◌>>=◌
  found_or_sound rest none s p h = inr h
  found_or_sound rest (some q) s p h = inl h

  leader_from_endpoints_sound :
      (es : List Endpoint) (s : State) (p : Pod)
      → (leader_from_endpoints svc es s).0 ≡ some p
      → Any (RefersTo p.uid) es
  unfolding leader_from_endpoints ◌>>=◌
  leader_from_endpoints_sound [] s p h = cc
  leader_from_endpoints_sound (e ∷ es) s p h =
      elim (found_or_sound (leader_from_endpoints svc es) (fetch_ref svc (pod_ref e) s).0
        (fetch_ref svc (pod_ref e) s).1 p h) [
          | inl f ↦ inl (fetch_ref_sound (pod_ref e) s p f)
          | inr k ↦ inr (leader_from_endpoints_sound es _ p k)
        ]

  from_slice_sound :
      (q : Result EndpointSlice) (s : State) (p : Pod)
      → ((x : EndpointSlice) → q ≡ ok x → HasRead svc n x s.calls)
      → (from_slice svc q s).0 ≡ some p
      → SliceUid svc p.uid n (from_slice svc q s).1.calls
  unfolding ◌>>=◌
  from_slice_sound (err e) s p known h = cc
  from_slice_sound (ok x) s p known h = (
    x,
    (Does-Keeps (HasRead-Stable svc n x) _ (leader_from_endpoints-Does laws svc x.endpoints)).at s
        (known x refl),
    leader_from_endpoints_sound x.endpoints s p h,
  )

  leader_from_slice_sound :
      (s : State) (p : Pod)
      → Since n s.calls
      → (leader_from_slice svc s).0 ≡ some p
      → SliceUid svc p.uid n (leader_from_slice svc s).1.calls
  unfolding leader_from_slice ◌>>=◌
  leader_from_slice_sound s p since h =
      from_slice_sound _ _ p
        (λ x e. Leads-value _ (retried-HasRead "get_endpointslice") s x since e) h

  or_slice_sound :
      (o : Option Pod) (s : State) (p : Pod)
      → Since n s.calls
      → (or_slice svc o s).0 ≡ some p
      → (o ≡ some p) ⊎ SliceUid svc p.uid n (or_slice svc o s).1.calls
  unfolding ◌>>=◌
  or_slice_sound (some q) s p since h = inl h
  or_slice_sound none s p since h = inr (leader_from_slice_sound s p since h)

  live_entry_sound :
      (time : ℕ) (o : Option CachedLeaderPod) (c : CachedLeaderPod)
      → live_entry time o ≡ some c
      → (o ≡ some c) × (time < c.expires_at)
  live_entry_sound time none c h = cc
  live_entry_sound time (some d) c h = ground arith

  unexpired_sound :
      (o : Option CachedLeaderPod) (s : State) (c : CachedLeaderPod)
      → (unexpired o s).0 ≡ some c
      → (o ≡ some c) × (r.client.now s.calls < c.expires_at)
  unfolding ◌>>=◌ now
  unexpired_sound none s c h = cc
  unexpired_sound (some d) s c h = live_entry_sound _ (some d) c h

  fetch_cached_sound :
      (o : Option CachedLeaderPod) (s : State) (p : Pod)
      → (fetch_cached svc o s).0 ≡ some p
      → (c : CachedLeaderPod) × (o ≡ some c) × (c.pod.uid ≡ p.uid)
  unfolding fetch_cached ◌>>=◌
  fetch_cached_sound none s p h = cc
  fetch_cached_sound (some c) s p h =
      (c, refl, fetch_again_sound "get_pod_cached" c.pod.namespace c.pod.name c.pod.uid s p h)

  leader_from_cache_sound :
      (s : State) (p : Pod) → (leader_from_cache svc s).0 ≡ some p → CachedUid svc p.uid s
  unfolding leader_from_cache ◌>>=◌
  leader_from_cache_sound s p h =
      let (c, f, u) = fetch_cached_sound _ _ p h in
      let (g, l) =
        unexpired_sound (entry_at (cache_key svc.namespace svc.name) s.leader_pod_cache) s c f in
      (c, g, l, u)

module _ ⦃r : Reconciler⦄ (laws : RetryLaws r) (svc : Service) where
  -- Where retry.Do is as RetryLaws says: a current leader is a pod with the UID that a live entry
  -- of the cache names for the service, or with a UID to which an endpoint of a slice refers that this
  -- very run has read under the key of the leader service. A pod that was made again under the same
  -- name, with a UID that is in neither, is not taken for the leader.
  pub get_current_leader_pod_uid :
      (s : State) (p : Pod)
      → (get_current_leader_pod svc s).0 ≡ some p
      → CachedUid svc p.uid s
        ⊎ SliceUid svc p.uid (length s.calls) (get_current_leader_pod svc s).1.calls
  unfolding get_current_leader_pod ◌>>=◌
  get_current_leader_pod_uid s p h =
      let n = length s.calls in
      let since =
        (Does-Keeps (Since-Stable n) _ (leader_from_cache-Does laws svc)).at s (omega arith) in
      elim (or_slice_sound laws svc n (leader_from_cache svc s).0 (leader_from_cache svc s).1 p
        since h) [ inl f ↦ inl (leader_from_cache_sound laws svc n s p f) | inr x ↦ inr x ]
