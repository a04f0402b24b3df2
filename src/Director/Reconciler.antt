-- ===== src/Director/Reconciler.antt =====
-- service_director.go, the types: the reconciler, its caches, and the calls that it makes on what
-- is not in the repository. Every answer from outside is a function of the calls made so far, so a
-- server, a clock and other clients may do anything between two calls.
use zen_lead.Base.{ℕ, String, Bool, Option, List, ◌∷◌}
use zen_lead.Base.Dict.{Dict}
use zen_lead.Base.Int.{ℤ}
use zen_lead.Kube.Objects.{Key, Pod, Service, EndpointSlice}
use zen_lead.Kube.Errors.{Error, Result}
use zen_lead.Metrics.{Sample}

-- What the controller does that others can see. A write carries whether it was accepted; a patch
-- carries the object as it was read, and as it is to be. An event carries its type and reason.
pub data Call : Type 0 where
  read_clock : Call
  get_service get_pod get_slice : Key → Call
  list_pods list_services list_slices : String → Dict String → Call
  create_service delete_service : Service → Bool → Call
  patch_service : Service → Service → Bool → Call
  create_slice delete_slice : EndpointSlice → Bool → Call
  patch_slice : EndpointSlice → EndpointSlice → Bool → Call
  event : String → String → Call
  sample : Sample → Call

-- The newest call comes first.
abbrev pub Calls : Type 0
Calls = List Call

-- controller-runtime's client, and the clock. A list takes a namespace and labels to match.
pub record Client : Type 0 where
  pub get_service : Calls → Key → Result Service
  pub get_pod : Calls → Key → Result Pod
  pub get_slice : Calls → Key → Result EndpointSlice
  pub list_pods : Calls → String → Dict String → Result (List Pod)
  pub list_services : Calls → String → Dict String → Result (List Service)
  pub list_slices : Calls → String → Dict String → Result (List EndpointSlice)
  pub create_service : Calls → Service → Result (Unit {0})
  pub patch_service : Calls → Service → Service → Result (Unit {0})
  pub delete_service : Calls → Service → Result (Unit {0})
  pub create_slice : Calls → EndpointSlice → Result (Unit {0})
  pub patch_slice : Calls → EndpointSlice → EndpointSlice → Result (Unit {0})
  pub delete_slice : Calls → EndpointSlice → Result (Unit {0})
  pub now : Calls → ℕ
  pub deadline_exceeded : Calls → Bool  -- errors.Is(ctx.Err(), context.DeadlineExceeded)

-- zen-sdk's retry.Config
pub record RetryConfig : Type 0 where
  pub max_attempts : ℤ
  pub initial_delay : ℤ
  pub max_delay : ℤ
  pub multiplier : ℕ
  pub retryable_errors : Error → Bool

-- Functions of zen-sdk, of apimachinery and of Go's library that the controller calls.
pub record Libraries : Type 1 where
  pub retry_do : (S A : Type 0) → RetryConfig → (S → Result A × S) → S → Result A × S
  pub default_retry : RetryConfig  -- retry.DefaultConfig()
  pub is_dns1123_label : String → Bool  -- no errors from validation.IsDNS1123Label
  pub is_dns1123_subdomain : String → Bool
  pub selector_matches : Dict String → Dict String → Bool  -- labels.SelectorFromSet(a).Matches(b)
  pub parse_duration : String → Option ℤ  -- time.ParseDuration, in nanoseconds
  pub parses_as_ipv6 : String → Bool  -- net.ParseIP(s) is not nil, and its To4() is
  pub format_time : ℕ → String  -- t.Format(time.RFC3339)

-- ServiceDirectorReconciler: the fields that stay as they were made.
pub record Reconciler : Type 1 where
  pub client : Client
  pub libraries : Libraries
  pub metrics : Bool  -- r.Metrics != nil
  pub max_cache_size_per_namespace : ℤ
  pub max_concurrent_reconciles : ℤ
  pub cache_update_timeout : ℤ
  pub metrics_collection_timeout : ℤ
  pub fast_retry_config : RetryConfig
  pub enable_parallel_api_calls : Bool
  pub leader_pod_cache_ttl : ℤ

pub record CachedLeaderPod : Type 0 where
  pub pod : Pod
  pub expires_at : ℕ
  pub service_key : String

pub record CachedService : Type 0 where
  pub name : String
  pub selector : Dict String
  pub last_access : ℕ

-- The calls made, and the fields of the reconciler that change. `leader_pod_cache` is nil, `none`,
-- when the cache is off.
pub record State : Type 0 where
  pub calls : Calls
  pub opted_in_services_cache : Dict (List CachedService)
  pub leader_pod_cache : Option (Dict CachedLeaderPod)

abbrev pub M : Type 0 → Type 0
M A = State → A × State

pub pure : {A : Type 0} → A → M A
pure a s = (a, s)

infixl 5 ◌>>=◌ ◌>>◌
-- Opening this opens `pure` too.
unfoldable pub ◌>>=◌ : {A B : Type 0} → M A → (A → M B) → M B
unfolding pure
◌>>=◌ m f s = let (a, s') = m s in f a s'

abbrev pub ◌>>◌ : {B : Type 0} → M (Unit {0}) → M B → M B
m >> n = m >>= λ _. n

abbrev pub log : Call → State → State
log c s = record s { calls = c ∷ s.calls }
