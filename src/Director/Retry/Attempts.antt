-- ===== src/Director/Retry/Attempts.antt =====
-- How often the wrapper of retry.Do runs its function, and what it counts.
use zen_lead.Base.{ℕ, suc, ◌+◌, ◌≡◌, refl, sym, ap, ◌∙◌, String, false, arith}
use zen_lead.Kube.Errors.{Result}
use zen_lead.Director.Reconciler.{RetryConfig, Reconciler, State, M}
use zen_lead.Director.Retry.{Attempt, wrapped_fn}
use zen_lead.Director.Retry.Laws.{Runs, gave_up, last, again}

abbrev pub first_attempt : State → Attempt
first_attempt s = record { state = s; attempt_count = 0; succeeded_after_retry = false }

module _ ⦃r : Reconciler⦄ {A : Type 0} (cfg : RetryConfig) (fn : M (Result A))
    (ns svc op : String) where
  pub wrapped_fn_count :
      (a : Attempt) → (wrapped_fn cfg fn ns svc op a).1.attempt_count ≡ a.attempt_count + 1
  unfolding wrapped_fn
  wrapped_fn_count a = refl

  pub Runs-attempt_count :
      {n : ℕ} {a : Attempt} {q : Result A × Attempt}
      → Runs (wrapped_fn cfg fn ns svc op) n a q
      → q.1.attempt_count ≡ a.attempt_count + n
  Runs-attempt_count (gave_up e) = omega arith
  Runs-attempt_count {a = a} (last e) = ap (λ q. q.1.attempt_count) (sym e) ∙ wrapped_fn_count a
  Runs-attempt_count {n = suc n} {a = a} {q = q} (again e rest) =
      let step = ap (λ p. p.1.attempt_count) (sym e) ∙ wrapped_fn_count a in
      let more = Runs-attempt_count rest in omega (arith, step, more)
