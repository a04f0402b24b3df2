-- ===== src/Metrics/Fits.antt =====
-- The samples of the recording methods of metrics.go, beside the vectors that they go to.
use zen_lead.Base.{
  ℕ, ◌≡◌, refl, String, Bool, true, false, ◌&&◌, List, [], ◌∷◌, ◌++◌, length, ◌==◌, str_eq, All,
  if◌then◌else◌,
}
use zen_lead.Metrics.{
  Effect, inc, set, observe, Sample, vec, sdk, sdk_error, record_api_call_duration,
  record_cache_hit, record_cache_miss, record_cache_size, record_cache_update_duration,
  record_endpoint_slices_total, record_endpoint_write_error, record_failover,
  record_failover_latency, record_leader_duration, record_leader_pod_age,
  record_leader_selection_attempt, record_leader_service_without_endpoints,
  record_leader_services_total, record_leader_stable, record_pods_available,
  record_port_resolution_failure, record_reconciliation, record_reconciliation_duration,
  record_reconciliation_error, record_retry_attempt, record_retry_success_after_retry,
  record_sticky_leader_hit, record_sticky_leader_miss, record_timeout, reset_leader_duration,
}
use zen_lead.Metrics.Vectors.{VectorKind, gauge, counter, histogram, Vector, vectors}

-- Inc is a counter's, Set a gauge's, Observe a histogram's.
suits : VectorKind → Effect → Bool
suits counter inc = true
suits gauge (set n) = true
suits histogram (observe n) = true
suits k e = false

-- The number of label values that WithLabelValues needs, and the kind of the vector.
goes_to : String → List String → Effect → List Vector → Bool
unfolding suits
goes_to field labels e [] = false
goes_to field labels e (v ∷ vs) =
    let rest = goes_to field labels e vs in
    if str_eq field v.field then length labels == length v.labels && suits v.kind e else rest

pub fits : Sample → Bool
unfolding goes_to
fits (vec field labels e) = goes_to field labels e vectors
fits (sdk m d) = true
fits (sdk_error m) = true

-- Each sample that a recording method sends to a vector of Recorder goes to one that there is, has as
-- many label values as it has labels, and is of its kind: Inc of a counter, Set of a gauge, Observe of
-- a histogram. What goes to zen-sdk's recorder is not looked at, nor are the texts of label values.
pub recordings-fit :
    (ns svc a b : String) (n : ℕ) (t : Bool)
    → All
        (λ s. fits s ≡ true)
        (record_leader_duration ns svc n
          ++ record_failover ns svc a
          ++ record_reconciliation_duration ns svc a n
          ++ record_pods_available ns svc n
          ++ record_port_resolution_failure ns svc a
          ++ record_reconciliation_error ns svc a
          ++ reset_leader_duration ns svc
          ++ record_leader_services_total ns n
          ++ record_endpoint_slices_total ns n
          ++ record_sticky_leader_hit ns svc
          ++ record_sticky_leader_miss ns svc
          ++ record_leader_selection_attempt ns svc
          ++ record_leader_pod_age ns svc n
          ++ record_leader_service_without_endpoints ns svc t
          ++ record_reconciliation ns svc a
          ++ record_leader_stable ns svc t
          ++ record_endpoint_write_error ns svc
          ++ record_retry_attempt ns svc a b
          ++ record_retry_success_after_retry ns svc a
          ++ record_cache_size ns n
          ++ record_cache_update_duration ns n
          ++ record_cache_hit ns
          ++ record_cache_miss ns
          ++ record_timeout ns a
          ++ record_failover_latency ns svc a n
          ++ record_api_call_duration ns svc a b n)
unfolding fits goes_to suits record_leader_duration record_failover record_reconciliation_duration
    record_pods_available record_port_resolution_failure record_reconciliation_error
    reset_leader_duration record_leader_services_total record_endpoint_slices_total
    record_sticky_leader_hit record_sticky_leader_miss record_leader_selection_attempt
    record_leader_pod_age record_leader_service_without_endpoints record_reconciliation
    record_leader_stable record_endpoint_write_error record_retry_attempt
    record_retry_success_after_retry record_cache_size record_cache_update_duration record_cache_hit
    record_cache_miss record_timeout record_failover_latency record_api_call_duration
recordings-fit ns svc a b n t = (
  refl,
  (
    refl,
    (
      refl,
      (
        refl,
        (
          refl,
          (
            refl,
            (
              refl,
              (
                refl,
                (
                  refl,
                  (
                    refl,
                    (
                      refl,
                      (
                        refl,
                        (
                          refl,
                          (
                            refl,
                            (
                              refl,
                              (
                                refl,
                                (
                                  refl,
                                  (
                                    refl,
                                    (
                                      refl,
                                      (
                                        refl,
                                        (
                                          refl,
                                          (
                                            refl,
                                            (refl, (refl, (refl, (refl, (refl, (refl, tt)))))),
                                          ),
                                        ),
                                      ),
                                    ),
                                  ),
                                ),
                              ),
                            ),
                          ),
                        ),
                      ),
                    ),
                  ),
                ),
              ),
            ),
          ),
        ),
      ),
    ),
  ),
)
