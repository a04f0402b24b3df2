-- ===== src/Tests/Counting.antt =====
-- A server that is down: the last attempt is counted twice.
use zen_lead.Base.{◌+◌, ◌≡◌, refl, true, arith, ◌==◌, if◌then◌else◌}
use zen_lead.Base.Text.{decimal}
use zen_lead.Kube.Objects.{Service}
use zen_lead.Kube.Errors.{Result, err, other, is_ok}
use zen_lead.Metrics.{record_retry_attempt, record_api_call_duration}
use zen_lead.Director.Reconciler.{Reconciler, State, M, ◌>>=◌}
use zen_lead.Director.Calls.{now, fetch_service, record_metric}
use zen_lead.Director.Retry.{
  Attempt, wrapped_fn, record_attempt, record_outcome, retry_counting, retry_do_with_metrics,
}
use zen_lead.Director.Retry.Laws.{RetryLaws}
use zen_lead.Director.Retry.Attempts.{first_attempt}
use zen_lead.Director.Retry.Counted.{count_max, retry_do_with_metrics-max}
use zen_lead.Tests.Retry.{do_retry, do_retry-Runs}
use zen_lead.Tests.Cluster.{web_key, three_attempts, tester, fresh}

abbrev down : Reconciler
down = record tester {
  metrics = true;
  client = record tester.client { get_service = λ cs k. err (other "down") };
}

down_laws : RetryLaws down
down_laws = record { runs = do_retry-Runs }

abbrev read : M (Result Service)
read = fetch_service ⦃r = down⦄ web_key

read_quiet : (s : State) → count_max (read s).1.calls ≡ count_max s.calls
unfolding fetch_service
read_quiet s = refl

retry_do_with_metrics-max_example :
    let q =
      do_retry Attempt Service three_attempts
        (wrapped_fn ⦃r = down⦄ three_attempts read "shop" "web" "get_service")
        (first_attempt (now ⦃r = down⦄ fresh).1) in
    let after =
      retry_do_with_metrics ⦃r = down⦄ three_attempts read "shop" "web" "get_service" fresh in
    (after.0 ≡ q.0)
    × (count_max after.1.calls
        ≡ count_max fresh.calls
          + (if q.1.attempt_count == 3 then (if is_ok q.0 then 1 else 2) else 0))
retry_do_with_metrics-max_example =
    retry_do_with_metrics-max ⦃r = down⦄ three_attempts read "shop" "web" "get_service" refl 3 refl
      (omega arith) read_quiet down_laws fresh

counted_twice :
    count_max
      (retry_do_with_metrics ⦃r = down⦄ three_attempts read "shop" "web" "get_service"
        fresh).1.calls
    ≡ 2
unfolding retry_do_with_metrics retry_counting wrapped_fn record_attempt record_outcome
    record_metric record_retry_attempt record_api_call_duration now fetch_service ◌>>=◌ decimal
counted_twice = refl
