-- ===== src/Metrics/Vectors.antt =====
-- metrics.go: the Prometheus vectors of the Recorder, and NewRecorder. Help texts are left out, and
-- buckets are milliseconds. Prometheus's registry and zen-sdk's recorder are parameters.
use zen_lead.Base.{ℕ, String, Bool, Option, none, some, List, [], ◌∷◌}

pub data VectorKind : Type 0 where
  gauge counter histogram : VectorKind

-- A *prometheus.GaugeVec, CounterVec or HistogramVec, with the field of Recorder that holds it.
pub record Vector : Type 0 where
  pub field : String
  pub metric_name : String
  pub kind : VectorKind
  pub buckets : List ℕ
  pub labels : List String

abbrev gauge_vec : String → String → List String → Vector
gauge_vec f n l = record { field = f; metric_name = n; kind = gauge; buckets = []; labels = l }

abbrev counter_vec : String → String → List String → Vector
counter_vec f n l = record { field = f; metric_name = n; kind = counter; buckets = []; labels = l }

abbrev histogram_vec : String → String → List ℕ → List String → Vector
histogram_vec f n b l = record {
  field = f;
  metric_name = n;
  kind = histogram;
  buckets = b;
  labels = l;
}

abbrev short_buckets : List ℕ
short_buckets = 1 ∷ 5 ∷ 10 ∷ 25 ∷ 50 ∷ 100 ∷ 250 ∷ 500 ∷ 1000 ∷ 2500 ∷ 5000 ∷ []

abbrev long_buckets : List ℕ
long_buckets = 1 ∷ 5 ∷ 10 ∷ 25 ∷ 50 ∷ 100 ∷ 250 ∷ 500 ∷ 1000 ∷ 2500 ∷ 5000 ∷ 10000 ∷ []

-- registered by NewRecorder, and in no field of it
abbrev pub build_info : Vector
build_info = gauge_vec "build_info" "zen_lead_build_info" ("version" ∷ "commit" ∷ "build_date" ∷ [])

abbrev leader_duration_seconds_vec : Vector
leader_duration_seconds_vec =
    gauge_vec "leader_duration_seconds" "zen_lead_leader_duration_seconds"
      ("namespace" ∷ "service" ∷ [])

abbrev failover_count_total_vec : Vector
failover_count_total_vec =
    counter_vec "failover_count_total" "zen_lead_failover_count_total"
      ("namespace" ∷ "service" ∷ "reason" ∷ [])

abbrev reconciliation_duration_seconds_vec : Vector
reconciliation_duration_seconds_vec =
    histogram_vec "reconciliation_duration_seconds" "zen_lead_reconciliation_duration_seconds"
      short_buckets ("namespace" ∷ "service" ∷ "result" ∷ [])

abbrev pods_available_vec : Vector
pods_available_vec =
    gauge_vec "pods_available" "zen_lead_pods_available" ("namespace" ∷ "service" ∷ [])

abbrev port_resolution_failures_total_vec : Vector
port_resolution_failures_total_vec =
    counter_vec "port_resolution_failures_total" "zen_lead_port_resolution_failures_total"
      ("namespace" ∷ "service" ∷ "port_name" ∷ [])

abbrev reconciliation_errors_total_vec : Vector
reconciliation_errors_total_vec =
    counter_vec "reconciliation_errors_total" "zen_lead_reconciliation_errors_total"
      ("namespace" ∷ "service" ∷ "error_type" ∷ [])

abbrev leader_services_total_vec : Vector
leader_services_total_vec =
    gauge_vec "leader_services_total" "zen_lead_leader_services_total" ("namespace" ∷ [])

abbrev endpoint_slices_total_vec : Vector
endpoint_slices_total_vec =
    gauge_vec "endpoint_slices_total" "zen_lead_endpointslices_total" ("namespace" ∷ [])

abbrev sticky_leader_hits_total_vec : Vector
sticky_leader_hits_total_vec =
    counter_vec "sticky_leader_hits_total" "zen_lead_sticky_leader_hits_total"
      ("namespace" ∷ "service" ∷ [])

abbrev sticky_leader_misses_total_vec : Vector
sticky_leader_misses_total_vec =
    counter_vec "sticky_leader_misses_total" "zen_lead_sticky_leader_misses_total"
      ("namespace" ∷ "service" ∷ [])

abbrev leader_selection_attempts_total_vec : Vector
leader_selection_attempts_total_vec =
    counter_vec "leader_selection_attempts_total" "zen_lead_leader_selection_attempts_total"
      ("namespace" ∷ "service" ∷ [])

abbrev leader_pod_age_seconds_vec : Vector
leader_pod_age_seconds_vec =
    gauge_vec "leader_pod_age_seconds" "zen_lead_leader_pod_age_seconds"
      ("namespace" ∷ "service" ∷ [])

abbrev leader_service_without_endpoints_vec : Vector
leader_service_without_endpoints_vec =
    gauge_vec "leader_service_without_endpoints" "zen_lead_leader_service_without_endpoints"
      ("namespace" ∷ "service" ∷ [])

abbrev reconciliations_total_vec : Vector
reconciliations_total_vec =
    counter_vec "reconciliations_total" "zen_lead_reconciliations_total"
      ("namespace" ∷ "service" ∷ "result" ∷ [])

abbrev leader_stable_vec : Vector
leader_stable_vec =
    gauge_vec "leader_stable" "zen_lead_leader_stable" ("namespace" ∷ "service" ∷ [])

abbrev endpoint_write_errors_total_vec : Vector
endpoint_write_errors_total_vec =
    counter_vec "endpoint_write_errors_total" "zen_lead_endpoint_write_errors_total"
      ("namespace" ∷ "service" ∷ [])

abbrev retry_attempts_total_vec : Vector
retry_attempts_total_vec =
    counter_vec "retry_attempts_total" "zen_lead_retry_attempts_total"
      ("namespace" ∷ "service" ∷ "operation" ∷ "attempt" ∷ [])

abbrev retry_success_after_retry_total_vec : Vector
retry_success_after_retry_total_vec =
    counter_vec "retry_success_after_retry_total" "zen_lead_retry_success_after_retry_total"
      ("namespace" ∷ "service" ∷ "operation" ∷ [])

abbrev cache_size_vec : Vector
cache_size_vec = gauge_vec "cache_size" "zen_lead_cache_size" ("namespace" ∷ [])

abbrev cache_update_duration_seconds_vec : Vector
cache_update_duration_seconds_vec =
    histogram_vec "cache_update_duration_seconds" "zen_lead_cache_update_duration_seconds"
      long_buckets ("namespace" ∷ [])

abbrev cache_hits_total_vec : Vector
cache_hits_total_vec = counter_vec "cache_hits_total" "zen_lead_cache_hits_total" ("namespace" ∷ [])

abbrev cache_misses_total_vec : Vector
cache_misses_total_vec =
    counter_vec "cache_misses_total" "zen_lead_cache_misses_total" ("namespace" ∷ [])

abbrev timeout_occurrences_total_vec : Vector
timeout_occurrences_total_vec =
    counter_vec "timeout_occurrences_total" "zen_lead_timeout_occurrences_total"
      ("namespace" ∷ "operation" ∷ [])

abbrev failover_latency_seconds_vec : Vector
failover_latency_seconds_vec =
    histogram_vec "failover_latency_seconds" "zen_lead_failover_latency_seconds" short_buckets
      ("namespace" ∷ "service" ∷ "reason" ∷ [])

abbrev api_call_duration_seconds_vec : Vector
api_call_duration_seconds_vec =
    histogram_vec "api_call_duration_seconds" "zen_lead_api_call_duration_seconds" long_buckets
      ("namespace" ∷ "service" ∷ "operation" ∷ "result" ∷ [])

abbrev pub vectors : List Vector
vectors =
    leader_duration_seconds_vec ∷ failover_count_total_vec ∷ reconciliation_duration_seconds_vec
    ∷ pods_available_vec ∷ port_resolution_failures_total_vec ∷ reconciliation_errors_total_vec
    ∷ leader_services_total_vec ∷ endpoint_slices_total_vec ∷ sticky_leader_hits_total_vec
    ∷ sticky_leader_misses_total_vec ∷ leader_selection_attempts_total_vec
    ∷ leader_pod_age_seconds_vec ∷ leader_service_without_endpoints_vec ∷ reconciliations_total_vec
    ∷ leader_stable_vec ∷ endpoint_write_errors_total_vec ∷ retry_attempts_total_vec
    ∷ retry_success_after_retry_total_vec ∷ cache_size_vec ∷ cache_update_duration_seconds_vec
    ∷ cache_hits_total_vec ∷ cache_misses_total_vec ∷ timeout_occurrences_total_vec
    ∷ failover_latency_seconds_vec ∷ api_call_duration_seconds_vec ∷ []

-- metrics.Registry of controller-runtime, and what zen-sdk's NewRecorder does to it. `none` is a panic.
pub record Registry : Type 1 where
  pub Collectors : Type 0
  pub must_register : Vector → Collectors → Option Collectors
  pub registered : Collectors → String → Bool  -- a collector with this metric name is there
  pub new_sdk_recorder : String → Collectors → Option Collectors

pub record Recorder : Type 0 where
  pub fields : List Vector

infixl 5 ◌>>=◌
abbrev pub ◌>>=◌ : {A B : Type 0} → Option A → (A → Option B) → Option B
none >>= k = none
some a >>= k = k a

module _ ⦃p : Registry⦄ where
  -- globalRecorder, and the collectors of metrics.Registry
  pub record Globals : Type 0 where
    pub global_recorder : Option Recorder
    pub registry : p.Collectors

  -- MustRegister of several collectors
  unfoldable pub must_register_all : List Vector → p.Collectors → Option p.Collectors
  must_register_all [] r = some r
  must_register_all (v ∷ vs) r = do next ← p.must_register v r; must_register_all vs next

  unfoldable pub make_recorder : Globals → Option (Recorder × Globals)
  unfolding must_register_all
  make_recorder g = do
    with_sdk ← p.new_sdk_recorder "zen-lead" g.registry
    with_info ← p.must_register build_info with_sdk
    all ← must_register_all vectors with_info
    let made : Recorder = record { fields = vectors }
    some (made, record { global_recorder = some made; registry = all })

  abbrev pub or_make : Option Recorder → Globals → Option (Recorder × Globals)
  or_make (some r) g = some (r, g)
  or_make none g = make_recorder g

  unfoldable pub new_recorder : Globals → Option (Recorder × Globals)
  unfolding make_recorder
  new_recorder g = or_make g.global_recorder g
