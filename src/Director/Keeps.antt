-- ===== src/Director/Keeps.antt =====
-- Predicates on the calls that an action keeps, and rules for the ways to build an action.
use mathlib.Core.Path.{subst}
use zen_lead.Base.{◌≡◌, refl, Bool, true, false, String, List, [], ◌∷◌, if◌then◌else◌}
use zen_lead.Base.Dict.{Dict}
use zen_lead.Kube.Objects.{Key}
use zen_lead.Kube.Errors.{Error, Result, ok, err}
use zen_lead.Metrics.{Sample}
use zen_lead.Director.Reconciler.{
  Call, read_clock, get_service, get_pod, get_slice, list_pods, list_services, list_slices,
  create_service, delete_service, patch_service, create_slice, delete_slice, patch_slice, event,
  sample, Calls, Reconciler, State, M, ◌>>=◌, pure, log,
}
use zen_lead.Director.Calls.{
  send_samples, when_on, record_event, now, record_metric, deadline_exceeded, fetch_service,
  fetch_pod, fetch_slice, fetch_pods, fetch_services, fetch_slices,
}

-- The calls that change objects of the cluster.
abbrev pub is_write : Call → Bool
is_write (create_service x b) = true
is_write (delete_service x b) = true
is_write (patch_service old x b) = true
is_write (create_slice x b) = true
is_write (delete_slice x b) = true
is_write (patch_slice old x b) = true
is_write _ = false

-- A predicate that reads, events, samples and the clock leave alone.
abbrev pub Stable : (Calls → Type 0) → Type 0
Stable P = (c : Call) (cs : Calls) → is_write c ≡ false → P cs → P (c ∷ cs)

-- The action keeps the predicate, whatever it returns.
pub record Keeps {A : Type 0} (P : Calls → Type 0) (m : M A) : Type 0 where
  pub at : (s : State) → P s.calls → P (m s).1.calls

-- A result with its calls: `Q` of a value, and `E` beside an error.
abbrev pub Post : {A : Type 0} → (Calls → Type 0) → (A → Calls → Type 0) → Result A → Calls → Type 0
Post E Q (ok a) cs = Q a cs
Post E Q (err e) cs = E cs

-- From `P` the action leads to a result with its calls in `Post E Q`.
pub record Leads {A : Type 0} (P E : Calls → Type 0) (m : M (Result A)) (Q : A → Calls → Type 0)
    : Type 0 where
  pub to : (s : State) → P s.calls → Post E Q (m s).0 (m s).1.calls

-- Nothing is known of the calls.
abbrev pub Anything : Calls → Type 0
Anything cs = Unit

pub Anything-Stable : Stable Anything
Anything-Stable c cs h t = tt

pub Keeps-Anything : {A : Type 0} (m : M A) → Keeps Anything m
Keeps-Anything m = record { at = λ s h. tt }

module _ {P : Calls → Type 0} where
  pub Keeps-pure : {A : Type 0} (a : A) → Keeps P (pure a)
  unfolding ◌>>=◌
  Keeps-pure a = record { at = λ s h. h }

  pub Keeps-bind :
      {A B : Type 0} (m : M A) (f : A → M B)
      → Keeps P m
      → ((a : A) → Keeps P (f a))
      → Keeps P (m >>= f)
  unfolding ◌>>=◌
  Keeps-bind m f km kf = record { at = λ s h. (kf (m s).0).at (m s).1 (km.at s h) }

  pub Keeps-if :
      {A : Type 0} (test : Bool) (p q : M A)
      → Keeps P p
      → Keeps P q
      → Keeps P (if test then p else q)
  Keeps-if true p q kp kq = kp
  Keeps-if false p q kp kq = kq

  send_samples-Stable :
      Stable P → (xs : List Sample) (s : State) → P s.calls → P (send_samples xs s).calls
  send_samples-Stable st [] s h = h
  send_samples-Stable st (x ∷ xs) s h =
      send_samples-Stable st xs (log (sample x) s) (st (sample x) s.calls refl h)

  pub Keeps-record_event :
      (st : Stable P) (kind reason : String) → Keeps P (record_event kind reason)
  unfolding record_event
  Keeps-record_event st kind reason = record { at = λ s h. st (event kind reason) s.calls refl h }

module _ ⦃r : Reconciler⦄ {P : Calls → Type 0} where
  when_on-Stable :
      Stable P → (b : Bool) (xs : List Sample) (s : State) → P s.calls → P (when_on b xs s).calls
  when_on-Stable st true xs s h = send_samples-Stable st xs s h
  when_on-Stable st false xs s h = h

  pub Keeps-record_metric : (st : Stable P) (xs : List Sample) → Keeps P (record_metric xs)
  unfolding record_metric
  Keeps-record_metric st xs = record { at = λ s h. when_on-Stable st r.metrics xs s h }

  pub Keeps-now : (st : Stable P) → Keeps P now
  unfolding now
  Keeps-now st = record { at = λ s h. st read_clock s.calls refl h }

  pub Keeps-deadline_exceeded : Keeps P deadline_exceeded
  unfolding deadline_exceeded
  Keeps-deadline_exceeded = record { at = λ s h. h }

  pub Keeps-fetch_service : (st : Stable P) (k : Key) → Keeps P (fetch_service k)
  unfolding fetch_service
  Keeps-fetch_service st k = record { at = λ s h. st (get_service k) s.calls refl h }

  pub Keeps-fetch_pod : (st : Stable P) (k : Key) → Keeps P (fetch_pod k)
  unfolding fetch_pod
  Keeps-fetch_pod st k = record { at = λ s h. st (get_pod k) s.calls refl h }

  pub Keeps-fetch_slice : (st : Stable P) (k : Key) → Keeps P (fetch_slice k)
  unfolding fetch_slice
  Keeps-fetch_slice st k = record { at = λ s h. st (get_slice k) s.calls refl h }

  pub Keeps-fetch_pods : (st : Stable P) (ns : String) (l : Dict String) → Keeps P (fetch_pods ns l)
  unfolding fetch_pods
  Keeps-fetch_pods st ns l = record { at = λ s h. st (list_pods ns l) s.calls refl h }

  pub Keeps-fetch_services :
      (st : Stable P) (ns : String) (l : Dict String) → Keeps P (fetch_services ns l)
  unfolding fetch_services
  Keeps-fetch_services st ns l = record { at = λ s h. st (list_services ns l) s.calls refl h }

  pub Keeps-fetch_slices :
      (st : Stable P) (ns : String) (l : Dict String) → Keeps P (fetch_slices ns l)
  unfolding fetch_slices
  Keeps-fetch_slices st ns l = record { at = λ s h. st (list_slices ns l) s.calls refl h }

module _ {A : Type 0} {P E : Calls → Type 0} {Q : A → Calls → Type 0} where
  pub Leads-if :
      (b : Bool) (m n : M (Result A))
      → Leads P E m Q
      → Leads P E n Q
      → Leads P E (if b then m else n) Q
  Leads-if true m n lm ln = lm
  Leads-if false m n lm ln = ln

  -- the same, where the branches may use what the test was
  pub Leads-if_at :
      (b : Bool) (m n : M (Result A))
      → (b ≡ true → Leads P E m Q)
      → (b ≡ false → Leads P E n Q)
      → Leads P E (if b then m else n) Q
  Leads-if_at true m n lm ln = lm refl
  Leads-if_at false m n lm ln = ln refl

  pub Leads-ok : (a : A) → ((cs : Calls) → P cs → Q a cs) → Leads P E (pure (ok a)) Q
  unfolding ◌>>=◌
  Leads-ok a h = record { to = λ s. h s.calls }

  pub Leads-err :
      (e : Error) → ((cs : Calls) → P cs → E cs) → Leads P E (pure {A = Result A} (err e)) Q
  unfolding ◌>>=◌
  Leads-err e h = record { to = λ s. h s.calls }

  -- after an action that keeps `P`
  pub Leads-bind :
      {B : Type 0} (m : M B) (f : B → M (Result A))
      → Keeps P m
      → ((b : B) → Leads P E (f b) Q)
      → Leads P E (m >>= f) Q
  unfolding ◌>>=◌
  Leads-bind m f k l = record { to = λ s h. (l (m s).0).to (m s).1 (k.at s h) }

  -- the same, where something is known of the value
  pub Leads-bind_at :
      {B : Type 0} (Known : B → Type 0) (m : M B) (f : B → M (Result A))
      → ((s : State) → Known (m s).0)
      → Keeps P m
      → ((b : B) → Known b → Leads P E (f b) Q)
      → Leads P E (m >>= f) Q
  unfolding ◌>>=◌
  Leads-bind_at Known m f known k l = record {
    to = λ s h. (l (m s).0 (known s)).to (m s).1 (k.at s h);
  }

  -- after an action that may fail
  pub Leads-step :
      {B : Type 0} (R : B → Calls → Type 0) (m : M (Result B)) (f : Result B → M (Result A))
      → Leads P E m R
      → ((b : B) → Leads (R b) E (f (ok b)) Q)
      → ((e : Error) → Leads E E (f (err e)) Q)
      → Leads P E (m >>= f) Q
  unfolding ◌>>=◌
  Leads-step {B} R m f lm fo fe = record { to = λ s h. either (m s).0 (m s).1 (lm.to s h) }
    where
      either : (q : Result B) (s : State) → Post E R q s.calls → Post E Q (f q s).0 (f q s).1.calls
      either (ok b) s h = (fo b).to s h
      either (err e) s h = (fe e).to s h

pub Leads-weaken :
    {A : Type 0} {P E : Calls → Type 0} {Q R : A → Calls → Type 0} (m : M (Result A))
    → Leads P E m Q
    → ((a : A) (cs : Calls) → Q a cs → R a cs)
    → Leads P E m R
Leads-weaken {A} {P} {E} {Q} {R} m l f = record {
  to = λ s h. either (m s).0 (m s).1.calls (l.to s h);
}
  where
    either : (q : Result A) (cs : Calls) → Post E Q q cs → Post E R q cs
    either (ok a) cs h = f a cs h
    either (err e) cs h = h

-- What is led to beside the value that was returned.
pub Leads-value :
    {A : Type 0} {P E : Calls → Type 0} {Q : A → Calls → Type 0} (m : M (Result A))
    → Leads P E m Q
    → (s : State) (a : A) → P s.calls
    → (m s).0 ≡ ok a
    → Q a (m s).1.calls
Leads-value {E = E} {Q = Q} m l s a h e = subst (λ q. Post E Q q (m s).1.calls) e (l.to s h)

-- An action that keeps a predicate leads to it, with any value.
pub Keeps-Leads :
    {A : Type 0} {P : Calls → Type 0} (m : M (Result A)) → Keeps P m → Leads P P m (λ a cs. P cs)
Keeps-Leads {A} {P} m k = record { to = λ s h. either (m s).0 (m s).1.calls (k.at s h) }
  where
    either : (q : Result A) (cs : Calls) → P cs → Post P (λ a cs. P cs) q cs
    either (ok a) cs h = h
    either (err e) cs h = h

-- and the other way round
pub Leads-Keeps :
    {A : Type 0} {P : Calls → Type 0} (m : M (Result A)) → Leads P P m (λ a cs. P cs) → Keeps P m
Leads-Keeps {A} {P} m k = record { at = λ s h. either (m s).0 (m s).1.calls (k.to s h) }
  where
    either : (q : Result A) (cs : Calls) → Post P (λ a cs. P cs) q cs → P cs
    either (ok a) cs h = h
    either (err e) cs h = h

pub ruleset keeps_rules = (
  Keeps-pure, Keeps-bind, Keeps-if, Keeps-record_event, Keeps-record_metric, Keeps-now,
  Keeps-deadline_exceeded, Keeps-fetch_service, Keeps-fetch_pod, Keeps-fetch_slice,
  Keeps-fetch_pods, Keeps-fetch_services, Keeps-fetch_slices,
)
