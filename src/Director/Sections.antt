-- ===== src/Director/Sections.antt =====
-- No code: what goroutines do to the shared state, one call or one critical section after another,
-- and rules that show it of an action. The sections are the bodies under cacheMu and leaderPodCacheMu
-- of service_director.go that change a cache; a time that is read before the lock is an argument.
pub mod Retries
pub mod Reached
pub mod Sound
pub mod Handlers
use zen_lead.Base.{ℕ, ◌+◌, ◌≡◌, refl, Bool, true, false, not, String, List, [], ◌∷◌, if◌then◌else◌}
use zen_lead.Base.Dict.{Dict, insert, erase, filter}
use zen_lead.Kube.Objects.{Key, Pod, Service}
use zen_lead.Kube.Errors.{Error, Result, ok, err}
use zen_lead.Metrics.{Sample}
use zen_lead.Director.Reconciler.{
  Call, read_clock, get_service, get_pod, get_slice, list_pods, list_services, list_slices, event,
  sample, Calls, RetryConfig, Reconciler, State, M, ◌>>=◌, pure, log,
}
use zen_lead.Director.Calls.{
  send_samples, when_on, record_event, now, record_metric, deadline_exceeded, fetch_service,
  fetch_pod, fetch_slice, fetch_pods, fetch_services, fetch_slices,
}
use zen_lead.Director.Keeps.{
  is_write, Stable, Keeps, Anything, Anything-Stable, Leads, Post, Leads-value,
}
use zen_lead.Director.ServiceCache.{
  is_cacheable, cached_in, write_cached, remove_named, put_named, touched, cache_entries,
  limit_entries,
}
use zen_lead.Director.LeaderPodCache.{on_cache, has_expired}

-- What is said of the calls, and of what the server lists.
pub record Terms ⦃r : Reconciler⦄ : Type 1 where
  pub Allowed : Call → Type 0
  pub Listing : List Service → Type 0
  pub quiet : (c : Call) → is_write c ≡ false → Allowed c
  pub listed :
      (cs : Calls) (ns : String) (services : List Service)
      → r.client.list_services cs ns [] ≡ ok services
      → Listing services

-- One call, or one critical section.
pub data Section ⦃r : Reconciler⦄ (t : Terms) : State → State → Type 0 where
  call : {s : State} (c : Call) → t.Allowed c → Section t s (log c s)
  remove :
      {s : State} (svc : Service)
      → Section t s
          (write_cached svc.namespace (remove_named svc.name (cached_in svc.namespace s)) s).1
  put :
      {s : State} (svc : Service) (time : ℕ)
      → is_cacheable svc ≡ true
      → Section t s
          (write_cached svc.namespace
            (put_named
              (record { name = svc.name; selector = svc.selector; last_access = time })
              (cached_in svc.namespace s))
            s).1
  refresh :
      {s : State} (ns : String) (services : List Service) (u : State)
      → t.Listing services
      → Section t s (write_cached ns (limit_entries (cache_entries services u).0) s).1
  touch :
      {s : State} (ns : String) (time : ℕ)
      → Section t s (write_cached ns (touched time (cached_in ns s)) s).1
  store_leader :
      {s : State} (key : String) (pod : Pod) (until : ℕ)
      → Section t s
          (on_cache (insert key (record { pod = pod; expires_at = until; service_key = key })) s)
  clear_leader : {s : State} (key : String) → Section t s (on_cache (erase key) s)
  drop_leaders :
      {s : State} (time : ℕ) → Section t s (on_cache (filter (λ k c. not (has_expired time c))) s)

-- Any number of them, of any goroutines in any order.
pub data Sections ⦃r : Reconciler⦄ (t : Terms) : State → State → Type 0 where
  nothing : {s : State} → Sections t s s
  next : {s m u : State} → Sections t s m → Section t m u → Sections t s u

-- The action is made of them.
pub record Does ⦃r : Reconciler⦄ (t : Terms) {A : Type 0} (m : M A) : Type 0 where
  pub at : (s0 s : State) → Sections t s0 s → Sections t s0 (m s).1

module _ ⦃r : Reconciler⦄ {t : Terms} where
  pub Does-pure : {A : Type 0} (a : A) → Does t (pure a)
  unfolding ◌>>=◌
  Does-pure a = record { at = λ s0 s h. h }

  pub Does-bind :
      {A B : Type 0} (m : M A) (f : A → M B)
      → Does t m
      → ((a : A) → Does t (f a))
      → Does t (m >>= f)
  unfolding ◌>>=◌
  Does-bind m f dm df = record { at = λ s0 s h. (df (m s).0).at s0 (m s).1 (dm.at s0 s h) }

  -- after an action of whose value something is known
  pub Does-bind_at :
      {A B : Type 0} (Known : A → Type 0) (m : M A) (f : A → M B)
      → ((s : State) → Known (m s).0)
      → Does t m
      → ((a : A) → Known a → Does t (f a))
      → Does t (m >>= f)
  unfolding ◌>>=◌
  Does-bind_at Known m f known dm df = record {
    at = λ s0 s h. (df (m s).0 (known s)).at s0 (m s).1 (dm.at s0 s h);
  }

  pub Does-if :
      {A : Type 0} (test : Bool) (p q : M A) → Does t p → Does t q → Does t (if test then p else q)
  Does-if true p q dp dq = dp
  Does-if false p q dp dq = dq

  pub Does-if_at :
      {A : Type 0} (test : Bool) (p q : M A)
      → (test ≡ true → Does t p)
      → (test ≡ false → Does t q)
      → Does t (if test then p else q)
  Does-if_at true p q dp dq = dp refl
  Does-if_at false p q dp dq = dq refl

  send_samples-Sections :
      (xs : List Sample) (s0 s : State) → Sections t s0 s → Sections t s0 (send_samples xs s)
  send_samples-Sections [] s0 s h = h
  send_samples-Sections (x ∷ xs) s0 s h =
      send_samples-Sections xs s0 (log (sample x) s) (next h (call (sample x) (t.quiet _ refl)))

  when_on-Sections :
      (b : Bool) (xs : List Sample) (s0 s : State)
      → Sections t s0 s
      → Sections t s0 (when_on b xs s)
  when_on-Sections true xs s0 s h = send_samples-Sections xs s0 s h
  when_on-Sections false xs s0 s h = h

  pub Does-record_metric : (xs : List Sample) → Does t (record_metric xs)
  unfolding record_metric
  Does-record_metric xs = record { at = λ s0 s h. when_on-Sections r.metrics xs s0 s h }

  pub Does-record_event : (kind reason : String) → Does t (record_event kind reason)
  unfolding record_event
  Does-record_event kind reason = record {
    at = λ s0 s h. next h (call (event kind reason) (t.quiet _ refl));
  }

  pub Does-now : Does t now
  unfolding now
  Does-now = record { at = λ s0 s h. next h (call read_clock (t.quiet _ refl)) }

  pub Does-deadline_exceeded : Does t deadline_exceeded
  unfolding deadline_exceeded
  Does-deadline_exceeded = record { at = λ s0 s h. h }

  pub Does-fetch_service : (k : Key) → Does t (fetch_service k)
  unfolding fetch_service
  Does-fetch_service k = record { at = λ s0 s h. next h (call (get_service k) (t.quiet _ refl)) }

  pub Does-fetch_pod : (k : Key) → Does t (fetch_pod k)
  unfolding fetch_pod
  Does-fetch_pod k = record { at = λ s0 s h. next h (call (get_pod k) (t.quiet _ refl)) }

  pub Does-fetch_slice : (k : Key) → Does t (fetch_slice k)
  unfolding fetch_slice
  Does-fetch_slice k = record { at = λ s0 s h. next h (call (get_slice k) (t.quiet _ refl)) }

  pub Does-fetch_pods : (ns : String) (l : Dict String) → Does t (fetch_pods ns l)
  unfolding fetch_pods
  Does-fetch_pods ns l = record { at = λ s0 s h. next h (call (list_pods ns l) (t.quiet _ refl)) }

  pub Does-fetch_services : (ns : String) (l : Dict String) → Does t (fetch_services ns l)
  unfolding fetch_services
  Does-fetch_services ns l = record {
    at = λ s0 s h. next h (call (list_services ns l) (t.quiet _ refl));
  }

  pub Does-fetch_slices : (ns : String) (l : Dict String) → Does t (fetch_slices ns l)
  unfolding fetch_slices
  Does-fetch_slices ns l = record {
    at = λ s0 s h. next h (call (list_slices ns l) (t.quiet _ refl));
  }

pub ruleset does_rules = (
  Does-pure, Does-bind, Does-if, Does-record_event, Does-record_metric, Does-now,
  Does-deadline_exceeded, Does-fetch_service, Does-fetch_pod, Does-fetch_slice, Does-fetch_pods,
  Does-fetch_services, Does-fetch_slices,
)
