-- ===== src/Manager.antt =====
-- cmd/manager/main.go: the flags, and main as a sequence of steps that may end the process. What it
-- calls of controller-runtime and zen-sdk is a parameter, whose answers depend on the steps so far.
pub mod Rates
pub mod Startup
pub mod Groups
use zen_lead.Base.{
  ℕ, ◌*◌, ◌%◌, ◌^◌, ◌-◌, ◌+◌, ◌≡◌, String, Bool, true, false, Option, none, some, List, [], ◌∷◌,
  ltb, if◌then◌else◌,
}
use zen_lead.Base.Int.{ℤ, pos, negsuc, is_pos}
use zen_lead.Kube.Errors.{Result, ok, err}
use zen_lead.Metrics.Vectors.{Vector, build_info, Registry, Recorder, Globals, new_recorder}
use zen_lead.Director.Reconciler.{Client, Libraries, Reconciler}
use zen_lead.Director.Constructor.{Limits, new_service_director_reconciler}

-- The flags as they are parsed. `qps` is a float there, and thousandths here.
pub record Flags : Type 0 where
  pub metrics_addr : String
  pub probe_addr : String
  pub leader_election_id : String
  pub enable_leader_groups : Bool
  pub max_cache_size_per_namespace : ℤ
  pub max_concurrent_reconciles : ℤ
  pub cache_update_timeout_seconds : ℤ
  pub metrics_collection_timeout_seconds : ℤ
  pub qps : ℤ
  pub burst : ℤ
  pub fast_retry_initial_delay_ms : ℤ
  pub fast_retry_max_delay_ms : ℤ
  pub fast_retry_max_attempts : ℤ
  pub enable_leader_pod_cache : Bool
  pub leader_pod_cache_ttl_seconds : ℤ
  pub enable_parallel_api_calls : Bool

-- the flags of a command line with none
abbrev pub default_flags : Flags
default_flags = record {
  metrics_addr = ":8080";
  probe_addr = ":8081";
  leader_election_id = "zen-lead-controller-leader-election";
  enable_leader_groups = false;
  max_cache_size_per_namespace = pos 1000;
  max_concurrent_reconciles = pos 10;
  cache_update_timeout_seconds = pos 10;
  metrics_collection_timeout_seconds = pos 5;
  qps = pos 50000;
  burst = pos 100;
  fast_retry_initial_delay_ms = pos 20;
  fast_retry_max_delay_ms = pos 500;
  fast_retry_max_attempts = pos 2;
  enable_leader_pod_cache = true;
  leader_pod_cache_ttl_seconds = pos 30;
  enable_parallel_api_calls = true;
}

-- An int64 from its bits, `n < 2 ^ 64`.
unfoldable pub signed : ℕ → ℤ
signed n = if ltb n 9223372036854775808 then pos n else negsuc (18446744073709551615 - n)

-- `time.Duration(n) * unit`, in int64, with a unit of so many nanoseconds
unfoldable pub times : ℕ → ℤ → ℤ
unfolding signed
times unit (pos n) = signed ((n * unit) % 18446744073709551616)
times unit (negsuc n) =
    signed ((18446744073709551616 - ((n + 1) * unit) % 18446744073709551616) % 18446744073709551616)

abbrev pub second : ℕ
second = 1000000000

abbrev pub millisecond : ℕ
millisecond = 1000000

unfoldable pub limits_of : Flags → Limits
unfolding times
limits_of f = record {
  max_cache_size_per_namespace = f.max_cache_size_per_namespace;
  max_concurrent_reconciles = f.max_concurrent_reconciles;
  cache_update_timeout = times second f.cache_update_timeout_seconds;
  metrics_collection_timeout = times second f.metrics_collection_timeout_seconds;
  fast_retry_initial_delay = times millisecond f.fast_retry_initial_delay_ms;
  fast_retry_max_delay = times millisecond f.fast_retry_max_delay_ms;
  fast_retry_max_attempts = f.fast_retry_max_attempts;
  enable_leader_pod_cache = f.enable_leader_pod_cache;
  leader_pod_cache_ttl = times second f.leader_pod_cache_ttl_seconds;
  enable_parallel_api_calls = f.enable_parallel_api_calls;
}

-- rest.Config
pub record RestConfig : Type 0 where
  pub qps : ℤ
  pub burst : ℤ

-- ctrl.Options
pub record ManagerOptions : Type 0 where
  pub metrics_addr : String
  pub probe_addr : String
  pub leader_election : Option (String × String × String)  -- a name, a namespace and an id

-- what main does that others can see
pub data Step : Type 0 where
  init_tracing pod_namespace get_config make_recorder register_info set_info start : Step
  new_manager : RestConfig → ManagerOptions → Step
  set_up_director set_up_leader_groups : Step
  add_healthz_check add_readyz_check : String → Step

-- controller-runtime, zen-sdk, and what else goes on in the process. `registers` is what a step of
-- theirs does to the registry of metrics.
pub record Outside ⦃p : Registry⦄ : Type 1 where
  pub client : Client
  pub libraries : Libraries
  pub init_tracing : List Step → Result (Unit {0})
  pub require_pod_namespace : List Step → Result String
  pub get_config_or_die : List Step → Result RestConfig
  pub apply_rest_config_defaults : RestConfig → RestConfig
  pub apply_leader_election : ManagerOptions → String → String → String → ManagerOptions
  pub new_manager : List Step → Result (Unit {0})
  pub set_up_director : Reconciler → List Step → Result (Unit {0})
  pub set_up_leader_groups : List Step → Result (Unit {0})
  pub add_check : List Step → Result (Unit {0})
  pub start : List Step → Result (Unit {0})
  pub registers : List Step → p.Collectors → p.Collectors

-- A step that goes on, os.Exit, or a panic.
pub data Exit (A : Type 0) : Type 0 where
  go : A → Exit A
  exit : ℕ → Exit A
  panic : Exit A

module _ ⦃p : Registry⦄ where
  pub record World : Type 0 where
    pub steps : List Step
    pub globals : Globals

  abbrev pub M : Type 0 → Type 0
  M A = World → Exit A × World

  abbrev pub and_then : {A B : Type 0} → Exit A × World → (A → M B) → Exit B × World
  and_then (go a, w) k = k a w
  and_then (exit n, w) k = (exit n, w)
  and_then (panic, w) k = (panic, w)

  infixl 5 ◌>>=◌ ◌>>◌
  unfoldable pub ◌>>=◌ : {A B : Type 0} → M A → (A → M B) → M B
  ◌>>=◌ m k w = and_then (m w) k

  abbrev pub ◌>>◌ : {B : Type 0} → M (Unit {0}) → M B → M B
  m >> n = m >>= λ _. n

  abbrev pub pure : {A : Type 0} → A → M A
  pure a w = (go a, w)

  -- `QPS` and `Burst` of the config; zen-sdk's defaults where no QPS is set
  unfoldable pub set_rates : (RestConfig → RestConfig) → Flags → RestConfig → RestConfig
  set_rates defaults f c =
      let with_qps : RestConfig = if is_pos f.qps then record c { qps = f.qps } else c in
      let with_burst : RestConfig =
        if is_pos f.burst then record with_qps { burst = f.burst } else with_qps in
      elim with_burst.qps [
        | pos n ↦ if ltb 0 n then with_burst else defaults with_burst
        | negsuc n ↦ with_burst
      ]

  module _ ⦃o : Outside⦄ where
    abbrev pub go_or_exit : {A : Type 0} → Result A → Exit A
    go_or_exit (ok a) = go a
    go_or_exit (err e) = exit 1

    abbrev pub done : Step → World → World
    done c w = record w {
      steps = c ∷ w.steps;
      globals = record w.globals { registry = o.registers w.steps w.globals.registry };
    }

    -- `if err != nil { os.Exit(1) }`
    unfoldable pub ask : {A : Type 0} → Step → (List Step → Result A) → M A
    ask c answer w = (go_or_exit (answer w.steps), done c w)

    -- a failure is logged only
    unfoldable pub try : {A : Type 0} → Step → (List Step → Result A) → M (Unit {0})
    try c answer w = (go tt, done c w)

    abbrev pub recorded : Option (Recorder × Globals) → World → Exit Recorder × World
    recorded none w = (panic, w)
    recorded (some (r, g)) w = (go r, record w { globals = g })

    -- metrics.NewRecorder, from within the constructor
    unfoldable pub get_recorder : M Recorder
    unfolding new_recorder
    get_recorder w =
        recorded (new_recorder w.globals) (record w { steps = make_recorder ∷ w.steps })

    abbrev pub registered_with : Option p.Collectors → World → Exit (Unit {0}) × World
    registered_with none w = (panic, w)
    registered_with (some r) w = (go tt, record w { globals = record w.globals { registry = r } })

    -- MustRegister of a vector of the same name as the one that the recorder has registered
    unfoldable pub register_build_info : M (Unit {0})
    register_build_info w =
        registered_with (p.must_register build_info w.globals.registry)
          (record w { steps = register_info ∷ w.steps })

    abbrev pub set_build_info : M (Unit {0})
    set_build_info w = (go tt, record w { steps = set_info ∷ w.steps })

    abbrev pub if_enabled : Bool → M (Unit {0}) → M (Unit {0})
    if_enabled true m = m
    if_enabled false m = pure tt

    unfoldable pub set_up : Flags → M (Unit {0})
    set_up f = do
      _ ← get_recorder
      let reconciler : Reconciler =
          new_service_director_reconciler o.client o.libraries (limits_of f)
      ask set_up_director (o.set_up_director reconciler)
      if_enabled f.enable_leader_groups (ask set_up_leader_groups o.set_up_leader_groups)
      ask (add_healthz_check "healthz") o.add_check
      ask (add_readyz_check "readyz") o.add_check
      register_build_info
      set_build_info
      ask start o.start

    unfoldable pub main : Flags → M (Unit {0})
    main f = do
      try init_tracing o.init_tracing
      ns ← ask pod_namespace o.require_pod_namespace
      given ← ask get_config o.get_config_or_die
      let config : RestConfig = set_rates o.apply_rest_config_defaults f given
      let bare : ManagerOptions = record {
        metrics_addr = f.metrics_addr;
        probe_addr = f.probe_addr;
        leader_election = none;
      }
      let options : ManagerOptions =
          o.apply_leader_election bare "zen-lead-controller" ns f.leader_election_id
      ask (new_manager config options) o.new_manager
      set_up f
