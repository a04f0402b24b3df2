-- ===== src/Director/Succeeds.antt =====
-- No code: what an action's answer always is, whatever the state, and rules for the ways to build one.
use mathlib.Core.Path.{subst}
use zen_lead.Base.{◌≡◌, refl, sym, ◌∙◌, Bool, true, false, String, if◌then◌else◌}
use zen_lead.Base.Int.{is_pos}
use zen_lead.Kube.Errors.{Error, Result, ok, err, is_not_found}
use zen_lead.Director.Reconciler.{RetryConfig, Reconciler, State, M, ◌>>=◌, pure}
use zen_lead.Director.Retry.{Attempt, wrapped_fn, retry_counting, retry_do_with_metrics}

-- `P` of a value, and `N` beside an error, which says that the object is not there.
abbrev pub Good : {A : Type 0} → (A → Type 0) → Type 0 → Result A → Type 0
Good P N (ok a) = P a
Good P N (err e) = N × (is_not_found e ≡ true)

abbrev pub IsOk : {A : Type 0} → Result A → Type 0
IsOk q = Good (λ a. Unit {0}) ⊥ q

abbrev pub IsAnswer : {A : Type 0} → Result A → Type 0
IsAnswer q = Good (λ a. Unit {0}) (Unit {0}) q

-- The second result is the first, up to what wraps an error.
abbrev pub Reports : {A : Type 0} → Result A → Result A → Type 0
Reports (ok a) (ok b) = a ≡ b
Reports (err e) (err f) = is_not_found e ≡ is_not_found f
Reports (ok a) (err f) = ⊥
Reports (err e) (ok b) = ⊥

-- While no caller's context has ended, retry.Do runs its function where it has an attempt, and reports
-- the answer of one of the runs.
pub record IsPatient (r : Reconciler) : Type 1 where
  pub reports :
      (S A : Type 0) (cfg : RetryConfig) (f : S → Result A × S) (s : S)
      → is_pos cfg.max_attempts ≡ true
      → (t : S) × Reports (f t).0 (r.libraries.retry_do S A cfg f s).0

pub record Always {A : Type 0} (G : A → Type 0) (m : M A) : Type 0 where
  pub at : (s : State) → G (m s).0

module _ {B : Type 0} {G : B → Type 0} where
  pub Always-pure : (b : B) → G b → Always G (pure b)
  unfolding ◌>>=◌
  Always-pure b h = record { at = λ s. h }

  pub Always-if :
      (test : Bool) (m n : M B)
      → (test ≡ true → Always G m)
      → (test ≡ false → Always G n)
      → Always G (if test then m else n)
  Always-if true m n h k = h refl
  Always-if false m n h k = k refl

module _ {A B : Type 0} {G : B → Type 0} where
  -- after an action whose value is known
  pub Always-bind :
      (F : A → Type 0) (m : M A) (k : A → M B)
      → Always F m
      → ((a : A) → F a → Always G (k a))
      → Always G (m >>= k)
  unfolding ◌>>=◌
  Always-bind F m k h j = record { at = λ s. (j (m s).0 (h.at s)).at (m s).1 }

  -- after any action
  pub Always-then : (m : M A) (k : A → M B) → ((a : A) → Always G (k a)) → Always G (m >>= k)
  unfolding ◌>>=◌
  Always-then m k j = record { at = λ s. (j (m s).0).at (m s).1 }

  -- after an action that may fail
  pub Always-result :
      (P : A → Type 0) (N : Type 0) (m : M (Result A)) (k : Result A → M B)
      → Always (Good P N) m
      → ((a : A) → P a → Always G (k (ok a)))
      → ((e : Error) → N → is_not_found e ≡ true → Always G (k (err e)))
      → Always G (m >>= k)
  unfolding ◌>>=◌
  Always-result P N m k h j l = record { at = λ s. either (m s).0 (m s).1 (h.at s) }
    where
      either : (q : Result A) (s : State) → Good P N q → G (k q s).0
      either (ok a) s p = (j a p).at s
      either (err e) s p = (l e p.0 p.1).at s

Reports-Good :
    {A : Type 0} (P : A → Type 0) (N : Type 0) (p q : Result A)
    → Reports p q
    → Good P N p
    → Good P N q
Reports-Good P N (ok a) (ok b) e h = subst P e h
Reports-Good P N (err e) (err f) d h = (h.0, sym d ∙ h.1)
Reports-Good P N (ok a) (err f) e h = absurd e
Reports-Good P N (err e) (ok b) d h = absurd d

-- What a retried action answers, one run of it does.
pub Always-retry :
    ⦃r : Reconciler⦄ (patient : IsPatient r) {A : Type 0} (P : A → Type 0) (N : Type 0)
    (cfg : RetryConfig) (fn : M (Result A)) (ns svc op : String)
    → is_pos cfg.max_attempts ≡ true
    → Always (Good P N) fn
    → Always (Good P N) (retry_do_with_metrics cfg fn ns svc op)
unfolding retry_do_with_metrics retry_counting wrapped_fn
Always-retry ⦃r⦄ patient {A} P N cfg fn ns svc op pos h =
    Always-if r.metrics _ _
      (λ on. record {
        at = λ s.
            let (t, e) = patient.reports Attempt A cfg (wrapped_fn cfg fn ns svc op) _ pos in
            Reports-Good P N _ _ e (h.at t.state);
      })
      (λ off. record {
        at = λ s.
            let (t, e) = patient.reports State A cfg fn s pos in Reports-Good P N _ _ e (h.at t);
      })
