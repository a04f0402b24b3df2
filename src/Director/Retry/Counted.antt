-- ===== src/Director/Retry/Counted.antt =====
-- How often the last attempt is counted.
use zen_lead.Base.{
  ℕ, suc, ◌+◌, ◌≤◌, ◌<◌, ◌≡◌, refl, sym, ap, ◌∙◌, String, Bool, true, false, not, ◌&&◌, List, [],
  ◌∷◌, arith, ◌==◌, ltb, str_eq, if◌then◌else◌, Bool-cases, inl, inr,
}
use zen_lead.Base.Int.{pos, ltz}
use zen_lead.Base.Text.{decimal, decimal-max}
use zen_lead.Kube.Errors.{Result, is_ok}
use zen_lead.Metrics.{
  vec, record_retry_attempt, record_retry_success_after_retry, record_api_call_duration,
}
use zen_lead.Director.Reconciler.{Call, sample, Calls, RetryConfig, Reconciler, State, M, ◌>>=◌}
use zen_lead.Director.Calls.{now, record_metric}
use zen_lead.Director.Retry.{
  Attempt, attempt_label, record_attempt, wrapped_fn, record_outcome, retry_counting,
  retry_do_with_metrics,
}
use zen_lead.Director.Retry.Laws.{Runs, gave_up, last, again, RetryLaws}
use zen_lead.Director.Retry.Attempts.{first_attempt, wrapped_fn_count, Runs-attempt_count}

abbrev is_max_label : List String → Bool
is_max_label (ns ∷ svc ∷ op ∷ attempt ∷ []) = str_eq attempt "max"
is_max_label _ = false

-- a sample of zen_lead_retry_attempts_total with the attempt "max"
abbrev pub is_max : Call → Bool
is_max (sample (vec name labels e)) = str_eq name "retry_attempts_total" && is_max_label labels
is_max _ = false

-- How many of them there are.
abbrev pub count_max : Calls → ℕ
count_max [] = 0
count_max (c ∷ cs) = let rest = count_max cs in if is_max c then suc rest else rest

label_is_max : (b : Bool) (n : ℕ) → str_eq (if b then "max" else decimal n) "max" ≡ b
label_is_max true n = refl
label_is_max false n = decimal-max n

at_most : (n m : ℕ) → not (ltz (pos n) (pos m)) ≡ not (ltb n m)
at_most n m = ground arith

module _ ⦃r : Reconciler⦄ {A : Type 0} (cfg : RetryConfig) (fn : M (Result A)) (ns svc op : String)
    (on : r.metrics ≡ true) (m : ℕ) (limit : cfg.max_attempts ≡ pos m) (several : 1 < m)
    (quiet : (s : State) → count_max (fn s).1.calls ≡ count_max s.calls) where
  attempt_max : (n : ℕ) → str_eq (attempt_label cfg fn ns svc op n) "max" ≡ not (ltb n m)
  attempt_max n = rw limit (label_is_max _ n ∙ at_most n m)

  count-record_attempt :
      (n : ℕ) (flag : Bool) (answer : Result A) (s : State)
      → n ≤ m
      → count_max (record_attempt cfg fn ns svc op n flag answer s).1.calls
        ≡ (if n == m then suc (count_max s.calls) else count_max s.calls)
  unfolding record_attempt record_metric record_retry_attempt ◌>>=◌
  count-record_attempt n flag answer s le = elim (Bool-cases (n == 1)) [
    | inl e ↦ elim (Bool-cases (is_ok answer)) [
      | inl k ↦ rw (e, k) (ground (arith, several))
      | inr k ↦ rw (e, k, on) (ground (arith, several))
    ]
    | inr e ↦ rw (e, on, attempt_max n) (ground (arith, le))
  ]

  count-wrapped_fn :
      (a : Attempt)
      → a.attempt_count + 1 ≤ m
      → count_max (wrapped_fn cfg fn ns svc op a).1.state.calls ≡ (
          if a.attempt_count + 1 == m
          then suc (count_max a.state.calls)
          else count_max a.state.calls)
  unfolding wrapped_fn
  count-wrapped_fn a le = rw (← quiet a.state) (
      count-record_attempt (a.attempt_count + 1) a.succeeded_after_retry (fn a.state).0
        (fn a.state).1 le)

  -- the runs of the wrapped function: only one that is the last allowed counts
  count-Runs :
      {n : ℕ} {a : Attempt} {q : Result A × Attempt}
      → Runs (wrapped_fn cfg fn ns svc op) n a q
      → a.attempt_count + n ≤ m
      → count_max q.1.state.calls ≡ (
          if ltb 0 n && (a.attempt_count + n == m)
          then suc (count_max a.state.calls)
          else count_max a.state.calls)
  count-Runs (gave_up e) le = refl
  count-Runs {a = a} (last e) le =
      ap (λ p. count_max p.1.state.calls) (sym e) ∙ count-wrapped_fn a le
  count-Runs {n = suc n} {a = a} {q = q} (again {t = b} e rest) le =
      let step =
        ap (λ p. count_max p.1.state.calls) (sym e) ∙ count-wrapped_fn a (omega (arith, le)) in
      let counted = ap (λ p. p.1.attempt_count) (sym e) ∙ wrapped_fn_count cfg fn ns svc op a in
      let more = count-Runs rest (omega (arith, counted, le)) in
      ground (arith, step, counted, more, le)

  count-record_outcome :
      (start : ℕ) (a : Attempt) (answer : Result A) (s : State)
      → count_max (record_outcome cfg fn ns svc op start a answer s).1.calls ≡ (
          if not (is_ok answer) && not (ltb a.attempt_count m)
          then suc (count_max s.calls)
          else count_max s.calls)
  unfolding record_outcome record_metric record_retry_attempt record_api_call_duration
      record_retry_success_after_retry now ◌>>=◌
  count-record_outcome start a answer s = elim (Bool-cases a.succeeded_after_retry) [
    | inl f ↦ elim (Bool-cases (not (is_ok answer) && not (ltb a.attempt_count m))) [
      | inl e ↦ rw (on, f, limit, exhausted answer a, e) refl
      | inr e ↦ rw (on, f, limit, exhausted answer a, e) refl
    ]
    | inr f ↦ elim (Bool-cases (not (is_ok answer) && not (ltb a.attempt_count m))) [
      | inl e ↦ rw (on, f, limit, exhausted answer a, e) refl
      | inr e ↦ rw (on, f, limit, exhausted answer a, e) refl
    ]
  ]
    where
      exhausted :
          (answer : Result A) (a : Attempt)
          → (not (is_ok answer) && not (ltz (pos a.attempt_count) (pos m)))
            ≡ (not (is_ok answer) && not (ltb a.attempt_count m))
      exhausted answer a = ap (λ b. not (is_ok answer) && b) (at_most a.attempt_count m)

  -- With metrics, a limit of more than one attempt, and a function that does not count attempts
  -- itself: a retry counts an attempt "max" only if it runs the function as often as the limit
  -- allows. If that last run succeeds it is counted once, and if it fails it is counted twice.
  pub retry_do_with_metrics-max :
      (laws : RetryLaws r) (s : State)
      → let q =
          r.libraries.retry_do Attempt A cfg
            (wrapped_fn cfg fn ns svc op)
            (first_attempt (now s).1) in
        let after = retry_do_with_metrics cfg fn ns svc op s in
        (after.0 ≡ q.0)
        × (count_max after.1.calls
            ≡ count_max s.calls
              + (if q.1.attempt_count == m then (if is_ok q.0 then 1 else 2) else 0))
  unfolding retry_do_with_metrics retry_counting
  retry_do_with_metrics-max laws s =
      let start = first_attempt (now s).1 in
      let q = r.libraries.retry_do Attempt A cfg (wrapped_fn cfg fn ns svc op) start in
      let (n, runs, bound) = laws.runs Attempt A cfg (wrapped_fn cfg fn ns svc op) start in
      let le : n ≤ m = bound m limit (omega (arith, several)) in
      let counted : q.1.attempt_count ≡ 0 + n = Runs-attempt_count cfg fn ns svc op runs in
      let in_runs = count-Runs runs (omega (arith, le)) in
      let clock : count_max (now s).1.calls ≡ count_max s.calls = unfold now in refl in
      let at_end = count-record_outcome (now s).0 q.1 q.0 q.1.state in
      rw on (refl, ground (arith, at_end, in_runs, counted, clock, le, several))
