-- ===== src/Tests/Retry.antt =====
-- A retry loop as zen-sdk documents it, and the proof that it is one.
use zen_lead.Base.{
  ℕ, zero, suc, ◌≤◌, ◌<◌, ◌≡◌, refl, ap, inl, inr, Bool, true, false, arith, Bool-cases,
}
use zen_lead.Base.Int.{ℤ, pos, negsuc, is_pos}
use zen_lead.Director.Succeeds.{Reports}
use zen_lead.Kube.Errors.{Error, Result, ok, err, other}
use zen_lead.Director.Reconciler.{RetryConfig}
use zen_lead.Director.Retry.Laws.{Runs, gave_up, last, again}

module _ {S A : Type 0} where
  -- a success is returned; after an error that may be retried the function runs again
  abbrev pub or_again : (S → Result A × S) → (Error → Bool) → Result A × S → Result A × S
  or_again rerun retryable (ok a, t) = (ok a, t)
  or_again rerun retryable (err e, t) = elim (retryable e) [ true ↦ rerun t | false ↦ (err e, t) ]

  abbrev pub retry_times : ℕ → (Error → Bool) → (S → Result A × S) → S → Result A × S
  retry_times zero retryable f s = (err (other "no attempts"), s)
  retry_times (suc zero) retryable f s = f s
  retry_times (suc (suc k)) retryable f s =
      or_again (retry_times (suc k) retryable f) retryable (f s)

  abbrev RunsWithin : ℕ → (S → Result A × S) → S → Result A × S → Type 0
  RunsWithin k f s q = (n : ℕ) × Runs f n s q × (n ≤ k)

  or_again-RunsWithin :
      (k : ℕ) (f rerun : S → Result A × S) (retryable : Error → Bool)
      → ((t : S) → RunsWithin (suc k) f t (rerun t))
      → (s : S) (q : Result A × S) → f s ≡ q
      → RunsWithin (suc (suc k)) f s (or_again rerun retryable q)
  or_again-RunsWithin k f rerun retryable h s (ok a, t) e = (1, last e, omega arith)
  or_again-RunsWithin k f rerun retryable h s (err e, t) g = elim (Bool-cases (retryable e)) [
    | inl b ↦ let (n, runs, le) = h t in (suc n, rw (b, or_again) (again g runs), omega arith)
    | inr b ↦ (1, rw (b, or_again) (last g), omega arith)
  ]

  retry_times-RunsWithin :
      (k : ℕ) (retryable : Error → Bool) (f : S → Result A × S) (s : S)
      → RunsWithin k f s (retry_times k retryable f s)
  retry_times-RunsWithin zero retryable f s = (0, gave_up _, omega arith)
  retry_times-RunsWithin (suc zero) retryable f s = (1, last refl, omega arith)
  retry_times-RunsWithin (suc (suc k)) retryable f s =
      or_again-RunsWithin k f (retry_times (suc k) retryable f) retryable
        (retry_times-RunsWithin (suc k) retryable f) s (f s) refl

abbrev pub attempts : ℤ → ℕ
attempts (pos n) = n
attempts (negsuc n) = 1

abbrev pub do_retry : (S A : Type 0) → RetryConfig → (S → Result A × S) → S → Result A × S
do_retry S A cfg = retry_times (attempts cfg.max_attempts) cfg.retryable_errors

pub do_retry-Runs :
    (S A : Type 0) (cfg : RetryConfig) (f : S → Result A × S) (s : S)
    → (n : ℕ) × Runs f n s (do_retry S A cfg f s)
      × ((m : ℕ) → cfg.max_attempts ≡ pos m → 0 < m → n ≤ m)
do_retry-Runs S A cfg f s =
    let (n, runs, le) =
      retry_times-RunsWithin (attempts cfg.max_attempts) cfg.retryable_errors f s in
    (n, runs, λ m e h. ground (arith, e, le))

-- It reports the answer of one of its runs.
module _ {A : Type 0} where
  Reports-eq : (p q : Result A) → p ≡ q → Reports p q
  Reports-eq (ok a) (ok b) e = ground (arith, e)
  Reports-eq (err d) (err e) h = ground (arith, h)
  Reports-eq (ok a) (err e) h = cc
  Reports-eq (err e) (ok a) h = cc

module _ {S A : Type 0} where
  or_again-answer :
      (f rerun : S → Result A × S) (retryable : Error → Bool)
      → ((t : S) → (u : S) × ((f u).0 ≡ (rerun t).0))
      → (s : S) (q : Result A × S) → f s ≡ q
      → (u : S) × ((f u).0 ≡ (or_again rerun retryable q).0)
  or_again-answer f rerun retryable h s (ok a, t) e = (s, ap (λ q. q.0) e)
  or_again-answer f rerun retryable h s (err d, t) e = elim (Bool-cases (retryable d)) [
    | inl b ↦ rw (b, or_again) (h t)
    | inr b ↦ rw (b, or_again) (s, ap (λ q. q.0) e)
  ]

  retry_times-answer :
      (k : ℕ) (retryable : Error → Bool) (f : S → Result A × S) (s : S)
      → (u : S) × ((f u).0 ≡ (retry_times (suc k) retryable f s).0)
  retry_times-answer zero retryable f s = (s, refl)
  retry_times-answer (suc k) retryable f s =
      or_again-answer f (retry_times (suc k) retryable f) retryable
        (retry_times-answer k retryable f) s (f s) refl

pub do_retry-Reports :
    (S A : Type 0) (cfg : RetryConfig) (f : S → Result A × S) (s : S)
    → is_pos cfg.max_attempts ≡ true
    → (t : S) × Reports (f t).0 (do_retry S A cfg f s).0
do_retry-Reports S A cfg f s h =
    at_attempts (attempts cfg.max_attempts) (positive cfg.max_attempts h)
  where
    positive : (z : ℤ) → is_pos z ≡ true → 0 < attempts z
    positive (pos n) e = ground arith
    positive (negsuc n) e = ground arith

    at_attempts :
        (k : ℕ) → 0 < k → (t : S) × Reports (f t).0 (retry_times k cfg.retryable_errors f s).0
    at_attempts zero h = absurd (omega arith)
    at_attempts (suc k) h =
        let (t, e) = retry_times-answer k cfg.retryable_errors f s in
        (t, Reports-eq (f t).0 (retry_times (suc k) cfg.retryable_errors f s).0 e)
