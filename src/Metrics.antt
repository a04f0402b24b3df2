-- ===== src/Metrics.antt =====
-- pkg/metrics/metrics.go: the Recorder. A method is the list of samples that it sends to the
-- Prometheus vectors, in order. Durations are whole nanoseconds here and float seconds there.
pub mod Vectors
pub mod Registering
pub mod Fits
use zen_lead.Base.{ℕ, String, Bool, true, false, List, [], ◌∷◌, str_eq, if◌then◌else◌}

pub data Effect : Type 0 where
  inc : Effect
  set observe : ℕ → Effect

-- `vec` is a sample of one of zen-lead's vectors, with its label values; `sdk` and `sdk_error`
-- are calls of the embedded zen-sdk recorder: a duration, and an error's class.
pub data Sample : Type 0 where
  vec : String → List String → Effect → Sample
  sdk : String → ℕ → Sample
  sdk_error : String → Sample

unfoldable pub flag : Bool → ℕ
flag true = 1
flag false = 0

unfoldable pub record_leader_duration : String → String → ℕ → List Sample
record_leader_duration ns svc d = vec "leader_duration_seconds" (ns ∷ svc ∷ []) (set d) ∷ []

unfoldable pub record_failover : String → String → String → List Sample
record_failover ns svc reason = vec "failover_count_total" (ns ∷ svc ∷ reason ∷ []) inc ∷ []

unfoldable pub record_reconciliation_duration : String → String → String → ℕ → List Sample
record_reconciliation_duration ns svc result d =
    sdk
      (if str_eq result "success"
        then "RecordReconciliationSuccess"
        else "RecordReconciliationError")
      d
    ∷ vec "reconciliation_duration_seconds" (ns ∷ svc ∷ result ∷ []) (observe d)
    ∷ []

unfoldable pub record_pods_available : String → String → ℕ → List Sample
record_pods_available ns svc n = vec "pods_available" (ns ∷ svc ∷ []) (set n) ∷ []

unfoldable pub record_port_resolution_failure : String → String → String → List Sample
record_port_resolution_failure ns svc port =
    vec "port_resolution_failures_total" (ns ∷ svc ∷ port ∷ []) inc ∷ []

unfoldable pub record_reconciliation_error : String → String → String → List Sample
record_reconciliation_error ns svc kind =
    sdk_error "reconciliation" ∷ vec "reconciliation_errors_total" (ns ∷ svc ∷ kind ∷ []) inc ∷ []

unfoldable pub reset_leader_duration : String → String → List Sample
reset_leader_duration ns svc = vec "leader_duration_seconds" (ns ∷ svc ∷ []) (set 0) ∷ []

unfoldable pub record_leader_services_total : String → ℕ → List Sample
record_leader_services_total ns n = vec "leader_services_total" (ns ∷ []) (set n) ∷ []

unfoldable pub record_endpoint_slices_total : String → ℕ → List Sample
record_endpoint_slices_total ns n = vec "endpoint_slices_total" (ns ∷ []) (set n) ∷ []

unfoldable pub record_sticky_leader_hit : String → String → List Sample
record_sticky_leader_hit ns svc = vec "sticky_leader_hits_total" (ns ∷ svc ∷ []) inc ∷ []

unfoldable pub record_sticky_leader_miss : String → String → List Sample
record_sticky_leader_miss ns svc = vec "sticky_leader_misses_total" (ns ∷ svc ∷ []) inc ∷ []

unfoldable pub record_leader_selection_attempt : String → String → List Sample
record_leader_selection_attempt ns svc =
    vec "leader_selection_attempts_total" (ns ∷ svc ∷ []) inc ∷ []

unfoldable pub record_leader_pod_age : String → String → ℕ → List Sample
record_leader_pod_age ns svc d = vec "leader_pod_age_seconds" (ns ∷ svc ∷ []) (set d) ∷ []

unfoldable pub record_leader_service_without_endpoints : String → String → Bool → List Sample
unfolding flag
record_leader_service_without_endpoints ns svc b =
    vec "leader_service_without_endpoints" (ns ∷ svc ∷ []) (set (flag b)) ∷ []

unfoldable pub record_reconciliation : String → String → String → List Sample
record_reconciliation ns svc result = vec "reconciliations_total" (ns ∷ svc ∷ result ∷ []) inc ∷ []

unfoldable pub record_leader_stable : String → String → Bool → List Sample
unfolding flag
record_leader_stable ns svc b = vec "leader_stable" (ns ∷ svc ∷ []) (set (flag b)) ∷ []

unfoldable pub record_endpoint_write_error : String → String → List Sample
record_endpoint_write_error ns svc = vec "endpoint_write_errors_total" (ns ∷ svc ∷ []) inc ∷ []

unfoldable pub record_retry_attempt : String → String → String → String → List Sample
record_retry_attempt ns svc op attempt =
    vec "retry_attempts_total" (ns ∷ svc ∷ op ∷ attempt ∷ []) inc ∷ []

unfoldable pub record_retry_success_after_retry : String → String → String → List Sample
record_retry_success_after_retry ns svc op =
    vec "retry_success_after_retry_total" (ns ∷ svc ∷ op ∷ []) inc ∷ []

unfoldable pub record_cache_size : String → ℕ → List Sample
record_cache_size ns n = vec "cache_size" (ns ∷ []) (set n) ∷ []

unfoldable pub record_cache_update_duration : String → ℕ → List Sample
record_cache_update_duration ns d = vec "cache_update_duration_seconds" (ns ∷ []) (observe d) ∷ []

unfoldable pub record_cache_hit : String → List Sample
record_cache_hit ns = vec "cache_hits_total" (ns ∷ []) inc ∷ []

unfoldable pub record_cache_miss : String → List Sample
record_cache_miss ns = vec "cache_misses_total" (ns ∷ []) inc ∷ []

unfoldable pub record_timeout : String → String → List Sample
record_timeout ns op = vec "timeout_occurrences_total" (ns ∷ op ∷ []) inc ∷ []

unfoldable pub record_failover_latency : String → String → String → ℕ → List Sample
record_failover_latency ns svc reason d =
    vec "failover_latency_seconds" (ns ∷ svc ∷ reason ∷ []) (observe d) ∷ []

unfoldable pub record_api_call_duration : String → String → String → String → ℕ → List Sample
record_api_call_duration ns svc op result d =
    vec "api_call_duration_seconds" (ns ∷ svc ∷ op ∷ result ∷ []) (observe d) ∷ []
