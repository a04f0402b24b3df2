-- ===== src/Director/Retry/Laws.antt =====
-- What the controller relies on of zen-sdk's retry.Do, and what that gives for the wrapper.
use mathlib.Core.Path.{subst}
use zen_lead.Base.{ℕ, suc, ◌+◌, ◌≤◌, ◌<◌, ◌≡◌, Bool, false, String}
use zen_lead.Base.Int.{pos}
use zen_lead.Kube.Errors.{Error, Result, ok, err}
use zen_lead.Director.Reconciler.{Calls, RetryConfig, Reconciler, State, M}
use zen_lead.Director.Keeps.{
  Stable, Keeps, Post, Leads, Leads-if, Keeps-Leads, Leads-Keeps, Keeps-now, keeps_rules,
}
use zen_lead.Director.Calls.{now}
use zen_lead.Director.Retry.{
  Attempt, record_attempt, wrapped_fn, record_outcome, retry_counting, retry_do_with_metrics,
}

-- A number of runs of `f`, one after another, all but the last of them failed: the result is that
-- of the last, or an error after it (the caller's context may end before the first).
pub data Runs {S A : Type 0} (f : S → Result A × S) : ℕ → S → Result A × S → Type 0 where
  gave_up : {s : S} (e : Error) → Runs f 0 s (err e, s)
  last : {s : S} {q : Result A × S} → f s ≡ q → Runs f 1 s q
  again :
      {n : ℕ} {s t : S} {e : Error} {q : Result A × S}
      → f s ≡ (err e, t)
      → Runs f n t q
      → Runs f (suc n) s q

-- retry.Do runs the function at most max_attempts times, and stops at the first success.
pub record RetryLaws (r : Reconciler) : Type 1 where
  pub runs :
      (S A : Type 0) (cfg : RetryConfig) (f : S → Result A × S) (s : S)
      → (n : ℕ) × Runs f n s (r.libraries.retry_do S A cfg f s)
        × ((m : ℕ) → cfg.max_attempts ≡ pos m → 0 < m → n ≤ m)

-- `I` beside an error, and `Q` of a value.
abbrev pub Outcome : {S A : Type 0} → (S → Type 0) → (A → S → Type 0) → Result A × S → Type 0
Outcome I Q (ok a, s) = Q a s
Outcome I Q (err e, s) = I s

module _ {S A : Type 0} (f : S → Result A × S) (I : S → Type 0) (Q : A → S → Type 0)
    (step : (s : S) → I s → Outcome I Q (f s)) where
  pub Runs-Outcome : {n : ℕ} {s : S} {q : Result A × S} → Runs f n s q → I s → Outcome I Q q
  Runs-Outcome (gave_up e) h = h
  Runs-Outcome {s = s} (last e) h = subst (Outcome I Q) e (step s h)
  Runs-Outcome {s = s} (again e rest) h = Runs-Outcome rest (subst (Outcome I Q) e (step s h))

module _ ⦃r : Reconciler⦄ (laws : RetryLaws r) {P : Calls → Type 0} (st : Stable P) {A : Type 0}
    (Q : A → Calls → Type 0) (stQ : (a : A) → Stable (Q a)) (cfg : RetryConfig) (fn : M (Result A))
    (ns svc op : String) where
  record_attempt-Keeps :
      {R : Calls → Type 0}
      → Stable R
      → (n : ℕ) (flag : Bool) (answer : Result A)
      → Keeps R (record_attempt cfg fn ns svc op n flag answer)
  unfolding record_attempt
  record_attempt-Keeps s n flag answer = search keeps_rules

  record_outcome-Keeps :
      {R : Calls → Type 0}
      → Stable R
      → (start : ℕ) (a : Attempt) (answer : Result A)
      → Keeps R (record_outcome cfg fn ns svc op start a answer)
  unfolding record_outcome
  record_outcome-Keeps s start a answer = search keeps_rules

  Post-Keeps :
      {B : Type 0} (q : Result A) (m : M B) (s : State)
      → ((R : Calls → Type 0) → Stable R → Keeps R m)
      → Post P Q q s.calls
      → Post P Q q (m s).1.calls
  Post-Keeps (ok a) m s k h = (k (Q a) (stQ a)).at s h
  Post-Keeps (err e) m s k h = (k P st).at s h

  Outcome-Post :
      {S : Type 0} (calls : S → Calls) (q : Result A × S)
      → Outcome (λ t. P (calls t)) (λ a t. Q a (calls t)) q
      → Post P Q q.0 (calls q.1)
  Outcome-Post calls (ok a, s) h = h
  Outcome-Post calls (err e, s) h = h

  Post-to_Outcome :
      {S : Type 0} (calls : S → Calls) (q : Result A) (s : S)
      → Post P Q q (calls s)
      → Outcome (λ t. P (calls t)) (λ a t. Q a (calls t)) (q, s)
  Post-to_Outcome calls (ok a) s h = h
  Post-to_Outcome calls (err e) s h = h

  wrapped_fn-Outcome :
      Leads P P fn Q
      → (a : Attempt) → P a.state.calls
      → Outcome (λ t. P t.state.calls) (λ v t. Q v t.state.calls) (wrapped_fn cfg fn ns svc op a)
  unfolding wrapped_fn
  wrapped_fn-Outcome l a h =
      Post-to_Outcome (λ (t : Attempt). t.state.calls) (fn a.state).0 _
        (Post-Keeps (fn a.state).0
          (record_attempt cfg fn ns svc op (a.attempt_count + 1) a.succeeded_after_retry
            (fn a.state).0)
          (fn a.state).1
          (λ R sR.
            record_attempt-Keeps sR (a.attempt_count + 1) a.succeeded_after_retry (fn a.state).0)
          (l.to a.state h))

  retry_counting-Post :
      Leads P P fn Q
      → (s : State) → P s.calls
      → Post P Q (retry_counting cfg fn ns svc op s).0 (retry_counting cfg fn ns svc op s).1.calls
  unfolding retry_counting
  retry_counting-Post l s h =
      let start : Attempt = record {
        state = (now s).1;
        attempt_count = 0;
        succeeded_after_retry = false;
      } in
      let q = r.libraries.retry_do Attempt A cfg (wrapped_fn cfg fn ns svc op) start in
      Post-Keeps q.0 (record_outcome cfg fn ns svc op (now s).0 q.1 q.0) q.1.state
        (λ R sR. record_outcome-Keeps sR (now s).0 q.1 q.0)
        (Outcome-Post (λ (t : Attempt). t.state.calls) q
          (Runs-Outcome (wrapped_fn cfg fn ns svc op) (λ t. P t.state.calls)
            (λ v t. Q v t.state.calls) (wrapped_fn-Outcome l)
            (laws.runs Attempt A cfg (wrapped_fn cfg fn ns svc op) start).1
            ((Keeps-now st).at s h)))

  retry_do-Post :
      Leads P P fn Q
      → (s : State) → P s.calls
      → Post P Q
          (r.libraries.retry_do State A cfg fn s).0
          (r.libraries.retry_do State A cfg fn s).1.calls
  retry_do-Post l s h =
      Outcome-Post (λ (t : State). t.calls) (r.libraries.retry_do State A cfg fn s)
        (Runs-Outcome fn (λ t. P t.calls) (λ v t. Q v t.calls)
          (λ t k. Post-to_Outcome (λ (t : State). t.calls) (fn t).0 (fn t).1 (l.to t k))
          (laws.runs State A cfg fn s).1 h)

  -- A retried action leads to what one run of it leads to: a value comes from a run that returned
  -- it, and beside an error there are failed runs only.
  pub Leads-retry : Leads P P fn Q → Leads P P (retry_do_with_metrics cfg fn ns svc op) Q
  unfolding retry_do_with_metrics
  Leads-retry l =
      Leads-if r.metrics (retry_counting cfg fn ns svc op) (r.libraries.retry_do State A cfg fn)
        (record { to = retry_counting-Post l }) (record { to = retry_do-Post l })

-- The same of a predicate that holds whatever the result is.
pub Keeps-retry :
    ⦃r : Reconciler⦄ (laws : RetryLaws r) {P : Calls → Type 0} (st : Stable P) {A : Type 0}
    (cfg : RetryConfig) (fn : M (Result A)) (ns svc op : String)
    → Keeps P fn
    → Keeps P (retry_do_with_metrics cfg fn ns svc op)
Keeps-retry laws {P} st cfg fn ns svc op k =
    Leads-Keeps (retry_do_with_metrics cfg fn ns svc op)
      (Leads-retry laws st (λ a. P) (λ a. st) cfg fn ns svc op (Keeps-Leads fn k))
