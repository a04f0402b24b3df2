-- ===== src/Director/Strategy.antt =====
-- strategy.go: which strategy serves a kind of resource. No other code calls it.
use zen_lead.Base.{
  ◌≡◌, refl, sym, ◌∙◌, ◌≢◌, ◌↔◌, ◌⊎◌, inl, inr, Bool-cases, String, Bool, true, ◌||◌, List, [], ◌∷◌,
  str_eq, eq_iff, In, arith, if◌then◌else◌,
}
use mathlib.Core.Path.{subst}
use zen_lead.Base.Int.{ℤ, pos, ltz}

pub data Strategy : Type 0 where
  traffic_director state_guard no_strategy : Strategy

abbrev is_any : String → String → String → String → Bool
is_any s a b c = str_eq s a || str_eq s b || str_eq s c

unfoldable pub detect_strategy : String → Strategy
detect_strategy s =
    if is_any s "Deployment" "deployment" "apps/v1.Deployment"
    then traffic_director
    else if is_any s "StatefulSet" "statefulset" "apps/v1.StatefulSet"
    then traffic_director
    else if is_any s "Service" "service" "v1.Service"
    then traffic_director
    else if is_any s "Job" "job" "batch/v1.Job"
    then state_guard
    else if is_any s "CronJob" "cronjob" "batch/v1.CronJob"
    then state_guard
    else no_strategy

-- the dynamic type of an object
pub data Resource : Type 0 where
  deployment stateful_set service job cron_job another : Resource

unfoldable pub detect_strategy_from_object : Resource → Strategy
detect_strategy_from_object deployment = traffic_director
detect_strategy_from_object stateful_set = traffic_director
detect_strategy_from_object service = traffic_director
detect_strategy_from_object job = state_guard
detect_strategy_from_object cron_job = state_guard
detect_strategy_from_object another = no_strategy

-- `replicas > 1`
unfoldable pub should_enable_ha : ℤ → Bool
should_enable_ha replicas = ltz (pos 1) replicas

-- The spellings of the types that the two functions know.
abbrev pub names : Resource → List String
names deployment = "Deployment" ∷ "deployment" ∷ "apps/v1.Deployment" ∷ []
names stateful_set = "StatefulSet" ∷ "statefulset" ∷ "apps/v1.StatefulSet" ∷ []
names service = "Service" ∷ "service" ∷ "v1.Service" ∷ []
names job = "Job" ∷ "job" ∷ "batch/v1.Job" ∷ []
names cron_job = "CronJob" ∷ "cronjob" ∷ "batch/v1.CronJob" ∷ []
names another = []

module _ (s a b c : String) where
  In-is_any : is_any s a b c ≡ true → In s (a ∷ b ∷ c ∷ [])
  In-is_any h = elim (Bool-cases (str_eq s a)) [
    | inl e ↦ inl (sym ((eq_iff s a).0 e))
    | inr n ↦ elim (Bool-cases (str_eq s b)) [
      | inl e ↦ inr (inl (sym ((eq_iff s b).0 e)))
      | inr m ↦ inr (inr (inl (sym ((eq_iff s c).0 (ground arith)))))
    ]
  ]

  at_each : (P : String → Type 0) → P a → P b → P c → In s (a ∷ b ∷ c ∷ []) → P s
  at_each P x y z (inl e) = subst P e x
  at_each P x y z (inr (inl e)) = subst P e y
  at_each P x y z (inr (inr (inl e))) = subst P e z
  at_each P x y z (inr (inr (inr h))) = absurd h

spelled :
    (k : Resource) (s : String) → In s (names k) → detect_strategy s ≡ detect_strategy_from_object k
unfolding detect_strategy detect_strategy_from_object
spelled deployment s = at_each s _ _ _ (λ x. detect_strategy x ≡ traffic_director) refl refl refl
spelled stateful_set s = at_each s _ _ _ (λ x. detect_strategy x ≡ traffic_director) refl refl refl
spelled service s = at_each s _ _ _ (λ x. detect_strategy x ≡ traffic_director) refl refl refl
spelled job s = at_each s _ _ _ (λ x. detect_strategy x ≡ state_guard) refl refl refl
spelled cron_job s = at_each s _ _ _ (λ x. detect_strategy x ≡ state_guard) refl refl refl
spelled another s = λ h. absurd h

some_resource : (s : String) → (detect_strategy s ≡ no_strategy) ⊎ ((k : Resource) × In s (names k))
unfolding detect_strategy
some_resource s = elim (Bool-cases (is_any s "Deployment" "deployment" "apps/v1.Deployment")) [
  | inl h ↦ inr (deployment, In-is_any s _ _ _ h)
  | inr d ↦ elim (Bool-cases (is_any s "StatefulSet" "statefulset" "apps/v1.StatefulSet")) [
    | inl h ↦ inr (stateful_set, In-is_any s _ _ _ h)
    | inr t ↦ elim (Bool-cases (is_any s "Service" "service" "v1.Service")) [
      | inl h ↦ inr (service, In-is_any s _ _ _ h)
      | inr v ↦ elim (Bool-cases (is_any s "Job" "job" "batch/v1.Job")) [
        | inl h ↦ inr (job, In-is_any s _ _ _ h)
        | inr j ↦ elim (Bool-cases (is_any s "CronJob" "cronjob" "batch/v1.CronJob")) [
          | inl h ↦ inr (cron_job, In-is_any s _ _ _ h)
          | inr c ↦ inl (rw (d, t, v, j, c) refl)
        ]
      ]
    ]
  ]
]

-- A kind that is written out gets a strategy other than none exactly if it is a spelling of a type
-- of object that gets that strategy.
pub detect_strategy_iff :
    (s : String) (st : Strategy)
    → st ≢ no_strategy
    → (detect_strategy s ≡ st)
      ↔ ((k : Resource) × In s (names k) × (detect_strategy_from_object k ≡ st))
detect_strategy_iff s st some_strategy = (
  λ e. elim (some_resource s) [
    | inl h ↦ absurd (some_strategy (sym e ∙ h))
    | inr (k, m) ↦ (k, m, sym (spelled k s m) ∙ e)
  ],
  λ found. spelled found.0 s found.1 ∙ found.2,
)
