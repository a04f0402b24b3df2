-- ===== src/Director/Sections/Retries.antt =====
-- An action that is retried is made of the runs of it.
use zen_lead.Base.{ℕ, ◌+◌, Bool, false, String}
use zen_lead.Kube.Errors.{Result, ok, err}
use zen_lead.Director.Reconciler.{RetryConfig, Reconciler, State, M}
use zen_lead.Director.Calls.{now}
use zen_lead.Director.Retry.{
  Attempt, record_attempt, wrapped_fn, record_outcome, retry_counting, retry_do_with_metrics,
}
use zen_lead.Director.Retry.Laws.{RetryLaws, Outcome, Runs-Outcome}
use zen_lead.Director.Sections.{Terms, Sections, Does, Does-if, Does-now, does_rules}

module _ {A : Type 0} {S : Type 0} where
  -- what holds of the state, whatever the result is
  to_Outcome : (I : S → Type 0) (q : Result A) (s : S) → I s → Outcome I (λ a. I) (q, s)
  to_Outcome I (ok a) s h = h
  to_Outcome I (err e) s h = h

  from_Outcome : (I : S → Type 0) (q : Result A × S) → Outcome I (λ a. I) q → I q.1
  from_Outcome I (ok a, s) h = h
  from_Outcome I (err e, s) h = h

module _ ⦃r : Reconciler⦄ (laws : RetryLaws r) {t : Terms} {A : Type 0} (cfg : RetryConfig)
    (fn : M (Result A)) (ns svc op : String) where
  record_attempt-Does :
      (n : ℕ) (flag : Bool) (answer : Result A)
      → Does t (record_attempt cfg fn ns svc op n flag answer)
  unfolding record_attempt
  record_attempt-Does n flag answer = search does_rules

  record_outcome-Does :
      (start : ℕ) (a : Attempt) (answer : Result A)
      → Does t (record_outcome cfg fn ns svc op start a answer)
  unfolding record_outcome
  record_outcome-Does start a answer = search does_rules

  -- A retried action is made of the runs of it.
  pub Does-retry : Does t fn → Does t (retry_do_with_metrics cfg fn ns svc op)
  unfolding retry_do_with_metrics retry_counting wrapped_fn
  Does-retry d =
      Does-if r.metrics _ _
        (record {
          at = λ s0 s h.
              let I : Attempt → Type 0 = λ a. Sections t s0 a.state in
              let start : Attempt = record {
                state = (now s).1;
                attempt_count = 0;
                succeeded_after_retry = false;
              } in
              let q = r.libraries.retry_do Attempt A cfg (wrapped_fn cfg fn ns svc op) start in
              (record_outcome-Does (now s).0 q.1 q.0).at s0 q.1.state (
                from_Outcome I q (
                  Runs-Outcome (wrapped_fn cfg fn ns svc op) I (λ a. I)
                    (λ a k. to_Outcome I (fn a.state).0 _ (
                      (record_attempt-Does (a.attempt_count + 1) a.succeeded_after_retry
                          (fn a.state).0).at
                        s0 (fn a.state).1 (d.at s0 a.state k)))
                    (laws.runs Attempt A cfg (wrapped_fn cfg fn ns svc op) start).1
                    (Does-now.at s0 s h)));
        })
        (record {
          at = λ s0 s h. from_Outcome (Sections t s0) (r.libraries.retry_do State A cfg fn s) (
              Runs-Outcome fn (Sections t s0) (λ a. Sections t s0)
                (λ u k. to_Outcome (Sections t s0) (fn u).0 _ (d.at s0 u k))
                (laws.runs State A cfg fn s).1 h);
        })
