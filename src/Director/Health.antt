-- ===== src/Director/Health.antt =====
-- health.go: ControllerHealthChecker. The answer of the API server is a parameter; its client has a
-- time limit, whose passing is one of the errors.
use zen_lead.Base.{
  ◌≡◌, refl, ◌↔◌, ℕ, String, Bool, true, false, not, Option, none, some, is_some, arith,
  if◌then◌else◌,
}
use zen_lead.Kube.Errors.{Result, ok, err, is_ok}

-- health.ErrNotInitialized and health.ErrNotReady of zen-sdk, wrapped with a text; `passing` is nil.
pub data Health : Type 0 where
  passing : Health
  not_initialized not_ready : String → Health

-- What the checks look at of a reconciler: a client, here by its answer to a list of namespaces of
-- at most so many, which is nil, `none`, where there is no client; and whether there are metrics.
pub record Checked : Type 0 where
  pub client : Option (ℕ → Result (Unit {0}))
  pub metrics : Bool

-- `none` is a nil reconciler
pub record ControllerHealthChecker : Type 0 where
  pub reconciler : Option Checked

unfoldable pub new_controller_health_checker : Option Checked → ControllerHealthChecker
new_controller_health_checker r = record { reconciler = r }

abbrev not_connected : Health
not_connected = not_ready "API server connection failed"

abbrev namespaces_listed : Result (Unit {0}) → Health
namespaces_listed (ok u) = passing
namespaces_listed (err e) = not_connected

abbrev ready_client : Bool → Option (ℕ → Result (Unit {0})) → Health
ready_client metrics none = not_ready "client not initialized"
ready_client metrics (some list) =
    if not metrics then not_ready "metrics not initialized" else namespaces_listed (list 1)

abbrev ready_reconciler : Option Checked → Health
ready_reconciler none = not_initialized "reconciler not initialized"
ready_reconciler (some r) = ready_client r.metrics r.client

unfoldable pub readiness_check : ControllerHealthChecker → Health
readiness_check c = ready_reconciler c.reconciler

abbrev live_client : Option (ℕ → Result (Unit {0})) → Health
live_client none = not_ready "client not initialized"
live_client (some list) = passing

abbrev live_reconciler : Option Checked → Health
live_reconciler none = not_initialized "reconciler not initialized"
live_reconciler (some r) = live_client r.client

unfoldable pub liveness_check : ControllerHealthChecker → Health
liveness_check c = live_reconciler c.reconciler

abbrev started : Option Checked → Health
started none = not_initialized "reconciler not initialized"
started (some r) = passing

unfoldable pub startup_check : ControllerHealthChecker → Health
startup_check c = started c.reconciler

unfoldable pub check : ControllerHealthChecker → Health
unfolding readiness_check
check c = readiness_check c

abbrev pub client_of : Option Checked → Option (ℕ → Result (Unit {0}))
client_of none = none
client_of (some r) = r.client

abbrev pub has_metrics : Option Checked → Bool
has_metrics none = false
has_metrics (some r) = r.metrics

abbrev pub answers : Option (ℕ → Result (Unit {0})) → Bool
answers none = false
answers (some list) = is_ok (list 1)

abbrev Iffs : Option Checked → Type 0
Iffs o =
    ((started o ≡ passing) ↔ (is_some o ≡ true))
    × ((live_reconciler o ≡ passing) ↔ (is_some (client_of o) ≡ true))
    × ((ready_reconciler o ≡ passing) ↔ ((has_metrics o ≡ true) × (answers (client_of o) ≡ true)))

ready_client_iff :
    (m : Bool) (o : Option (ℕ → Result (Unit {0})))
    → (ready_client m o ≡ passing) ↔ ((m ≡ true) × (answers o ≡ true))
ready_client_iff m none = ground arith
ready_client_iff m (some list) = at_answer m (list 1)
  where
    at_answer :
        (m : Bool) (a : Result (Unit {0}))
        → ((if not m then not_ready "metrics not initialized" else namespaces_listed a) ≡ passing)
          ↔ ((m ≡ true) × (is_ok a ≡ true))
    at_answer m a = ground arith

live_client_iff :
    (o : Option (ℕ → Result (Unit {0}))) → (live_client o ≡ passing) ↔ (is_some o ≡ true)
live_client_iff o = ground arith

iffs : (o : Option Checked) → Iffs o
iffs none = ground arith
iffs (some r) =
    (((λ _. refl), (λ _. refl)), live_client_iff r.client, ready_client_iff r.metrics r.client)

-- The startup check passes exactly if there is a reconciler, the liveness check exactly if it has a
-- client, and Check exactly if it has metrics and the API server answers a list of one namespace.
pub checks_iff :
    (c : ControllerHealthChecker)
    → ((startup_check c ≡ passing) ↔ (is_some c.reconciler ≡ true))
      × ((liveness_check c ≡ passing) ↔ (is_some (client_of c.reconciler) ≡ true))
      × ((check c ≡ passing)
          ↔ ((has_metrics c.reconciler ≡ true) × (answers (client_of c.reconciler) ≡ true)))
unfolding check readiness_check liveness_check startup_check
checks_iff c = iffs c.reconciler
