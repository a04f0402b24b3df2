-- ===== src/Director/Retry.antt =====
-- retry_metrics.go: zen-sdk's retry.Do, wrapped so that attempts and latency are counted.
pub mod Laws
pub mod Attempts
pub mod Counted
use zen_lead.Base.{
  ℕ, ◌+◌, ◌-◌, String, Bool, true, false, List, ◌==◌, ltb, if◌then◌else◌, not, ◌&&◌, ◌||◌,
}
use zen_lead.Base.Text.{decimal}
use zen_lead.Base.Int.{ℤ, pos, ltz}
use zen_lead.Kube.Errors.{Result, ok, err, is_ok}
use zen_lead.Metrics.{
  record_retry_attempt, record_retry_success_after_retry, record_api_call_duration,
}
use zen_lead.Director.Reconciler.{RetryConfig, Reconciler, State, M, ◌>>=◌, ◌>>◌, pure}
use zen_lead.Director.Calls.{now, record_metric}

-- The state that the wrapped function captures.
pub record Attempt : Type 0 where
  pub state : State
  pub attempt_count : ℕ
  pub succeeded_after_retry : Bool

module _ ⦃r : Reconciler⦄ {A : Type 0} (cfg : RetryConfig) (fn : M (Result A))
    (ns svc op : String) where
  -- the label of an attempt after the first
  abbrev attempt_label : ℕ → String
  attempt_label n = if not (ltz (pos n) cfg.max_attempts) then "max" else decimal n

  -- the metric of the attempt with this number, and the flag as it is then
  unfoldable pub record_attempt : ℕ → Bool → Result A → M Bool
  record_attempt n flag answer =
      if n == 1
      then (if is_ok answer
          then pure flag
          else (do record_metric (record_retry_attempt ns svc op "1"); pure flag))
      else (do
        record_metric (record_retry_attempt ns svc op (attempt_label n))
        pure (flag || (is_ok answer && ltb 1 n)))

  -- wrappedFn
  unfoldable pub wrapped_fn : Attempt → Result A × Attempt
  wrapped_fn a =
      let n = a.attempt_count + 1 in
      let (answer, s) = fn a.state in
      let (flag, s') = record_attempt n a.succeeded_after_retry answer s in
      (answer, record { state = s'; attempt_count = n; succeeded_after_retry = flag })

  abbrev result_label : Result A → String
  result_label answer = if is_ok answer then "success" else "error"

  -- what follows retry.Do
  unfoldable pub record_outcome : ℕ → Attempt → Result A → M (Unit {0})
  record_outcome start a answer = do
    end ← now
    record_metric (record_api_call_duration ns svc op (result_label answer) (end - start))
    if a.succeeded_after_retry
        then record_metric (record_retry_success_after_retry ns svc op)
        else pure tt
    if not (is_ok answer) && not (ltz (pos a.attempt_count) cfg.max_attempts)
        then record_metric (record_retry_attempt ns svc op "max")
        else pure tt

  unfoldable pub retry_counting : M (Result A)
  retry_counting s0 =
      let (start, s1) = now s0 in
      let (answer, a) =
        r.libraries.retry_do Attempt A cfg wrapped_fn
          (record { state = s1; attempt_count = 0; succeeded_after_retry = false }) in
      let (_, s2) = record_outcome start a answer a.state in (answer, s2)

  -- retryDoWithMetrics
  unfoldable pub retry_do_with_metrics : M (Result A)
  retry_do_with_metrics = if r.metrics then retry_counting else r.libraries.retry_do State A cfg fn
