-- ===== src/Director/Constructor.antt =====
-- service_director.go: NewServiceDirectorReconciler, which puts a default for every limit that is
-- not positive. Durations are nanoseconds.
use zen_lead.Base.{◌≡◌, refl, Bool, true, none, some, [], arith, not, if◌then◌else◌}
use zen_lead.Base.Int.{ℤ, pos, is_pos}
use zen_lead.Director.Reconciler.{Client, RetryConfig, Libraries, Reconciler, State}

-- `if value <= 0 { value = fallback }`
unfoldable pub or_default : ℤ → ℤ → ℤ
or_default fallback value = if not (is_pos value) then fallback else value

-- the arguments that are numbers or flags
pub record Limits : Type 0 where
  pub max_cache_size_per_namespace : ℤ
  pub max_concurrent_reconciles : ℤ
  pub cache_update_timeout : ℤ
  pub metrics_collection_timeout : ℤ
  pub fast_retry_initial_delay : ℤ
  pub fast_retry_max_delay : ℤ
  pub fast_retry_max_attempts : ℤ
  pub enable_leader_pod_cache : Bool
  pub leader_pod_cache_ttl : ℤ
  pub enable_parallel_api_calls : Bool

unfoldable pub make_fast_retry_config : Libraries → Limits → RetryConfig
unfolding or_default
make_fast_retry_config libraries l = record {
  max_attempts = or_default (pos 2) l.fast_retry_max_attempts;
  initial_delay = or_default (pos 20000000) l.fast_retry_initial_delay;
  max_delay = or_default (pos 500000000) l.fast_retry_max_delay;
  multiplier = 2;
  retryable_errors = libraries.default_retry.retryable_errors;
}

-- NewServiceDirectorReconciler, the fields that stay as they were made
unfoldable pub new_service_director_reconciler : Client → Libraries → Limits → Reconciler
unfolding or_default make_fast_retry_config
new_service_director_reconciler client libraries l = record {
  client = client;
  libraries = libraries;
  metrics = true;
  max_cache_size_per_namespace = or_default (pos 1000) l.max_cache_size_per_namespace;
  max_concurrent_reconciles = or_default (pos 10) l.max_concurrent_reconciles;
  cache_update_timeout = or_default (pos 10000000000) l.cache_update_timeout;
  metrics_collection_timeout = or_default (pos 5000000000) l.metrics_collection_timeout;
  fast_retry_config = make_fast_retry_config libraries l;
  enable_parallel_api_calls = l.enable_parallel_api_calls;
  leader_pod_cache_ttl = or_default (pos 30000000000) l.leader_pod_cache_ttl;
}

-- its fields that change
unfoldable pub new_state : Limits → State
new_state l = record {
  calls = [];
  opted_in_services_cache = [];
  leader_pod_cache = if l.enable_leader_pod_cache then some [] else none;
}

-- The limits that the controller runs with are positive.
pub record HasLimits (r : Reconciler) : Type 0 where
  pub cache : is_pos r.max_cache_size_per_namespace ≡ true
  pub concurrency : is_pos r.max_concurrent_reconciles ≡ true
  pub cache_timeout : is_pos r.cache_update_timeout ≡ true
  pub metrics_timeout : is_pos r.metrics_collection_timeout ≡ true
  pub attempts : is_pos r.fast_retry_config.max_attempts ≡ true
  pub initial_delay : is_pos r.fast_retry_config.initial_delay ≡ true
  pub max_delay : is_pos r.fast_retry_config.max_delay ≡ true
  pub ttl : is_pos r.leader_pod_cache_ttl ≡ true

or_default_pos :
    (fallback value : ℤ) → is_pos fallback ≡ true → is_pos (or_default fallback value) ≡ true
unfolding or_default
or_default_pos fallback value h = ground (arith, h)

-- Whatever limits the constructor is given, every limit that it sets in the controller is positive:
-- what is not positive is replaced by a default, the cache size of 0 included.
pub new_service_director_reconciler-HasLimits :
    (client : Client) (libraries : Libraries) (l : Limits)
    → HasLimits (new_service_director_reconciler client libraries l)
unfolding new_service_director_reconciler make_fast_retry_config
new_service_director_reconciler-HasLimits client libraries l = record {
  cache = or_default_pos (pos 1000) l.max_cache_size_per_namespace refl;
  concurrency = or_default_pos (pos 10) l.max_concurrent_reconciles refl;
  cache_timeout = or_default_pos (pos 10000000000) l.cache_update_timeout refl;
  metrics_timeout = or_default_pos (pos 5000000000) l.metrics_collection_timeout refl;
  attempts = or_default_pos (pos 2) l.fast_retry_max_attempts refl;
  initial_delay = or_default_pos (pos 20000000) l.fast_retry_initial_delay refl;
  max_delay = or_default_pos (pos 500000000) l.fast_retry_max_delay refl;
  ttl = or_default_pos (pos 30000000000) l.leader_pod_cache_ttl refl;
}
