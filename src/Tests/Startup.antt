-- ===== src/Tests/Startup.antt =====
-- The recorder, the health checks, the strategies and main on concrete inputs.
use zen_lead.Base.{
  ◌≡◌, refl, ◌↔◌, String, Bool, true, false, not, ◌&&◌, ◌||◌, Option, none, some, List, [], ◌∷◌,
  arith, str_eq, is_some,
}
use zen_lead.Base.Int.{pos, negsuc}
use zen_lead.Kube.Errors.{ok}
use zen_lead.Metrics.Vectors.{Vector, build_info, vectors, Registry, Globals, new_recorder}
use zen_lead.Metrics.Registering.{RegistryLaws, Free, named, new_recorder_total}
use zen_lead.Director.Health.{
  passing, ControllerHealthChecker, startup_check, liveness_check, check, client_of, has_metrics,
  answers, checks_iff,
}
use zen_lead.Director.Strategy.{state_guard, detect_strategy, should_enable_ha}
use zen_lead.Director.Constructor.{new_service_director_reconciler}
use zen_lead.Manager.{
  default_flags, limits_of, times, second, millisecond, Outside, panic, main, ◌>>=◌, try, ask,
  set_up, get_recorder, register_build_info,
}
use zen_lead.Manager.Rates.{given, limits_of-durations}
use zen_lead.Manager.Startup.{Ended, NotStarted, KeepsRegistry, main-never_starts}
use zen_lead.Tests.Cluster.{tester}

-- A registry that keeps the names of its collectors.
abbrev has : String → List String → Bool
has n [] = false
has n (m ∷ ms) = str_eq m n || has n ms

abbrev registering : Bool → String → List String → Option (List String)
registering true n ns = none
registering false n ns = some (n ∷ ns)

instance abbrev prometheus : Registry
prometheus = record {
  Collectors = List String;
  must_register = λ v ns. registering (has v.metric_name ns) v.metric_name ns;
  registered = λ ns n. has n ns;
  new_sdk_recorder = λ component ns. some ("zen_reconciliations_total" ∷ ns);
}

after_registering :
    (taken : Bool) (m : String) (ns next : List String) (n : String)
    → registering taken m ns ≡ some next
    → has n next ≡ (str_eq m n || has n ns)
after_registering true m ns next n e = ground (arith, e)
after_registering false m ns next n e = ground (arith, e)

prometheus_laws : RegistryLaws
prometheus_laws = record {
  refuses = λ v ns e. rw e refl;
  accepts = λ v ns valid e. rw e (v.metric_name ∷ ns, refl);
  after = λ v ns next n e. after_registering (has v.metric_name ns) v.metric_name ns next n e;
  sdk_keeps = λ ns next n e h. ground (arith, e, h);
}

abbrev before : Globals
before = record { global_recorder = none; registry = [] }

-- zen-sdk's recorder takes none of the names.
abbrev sdk_names : List String
sdk_names = "zen_reconciliations_total" ∷ []

abbrev none_taken : List Vector → List String → Bool
none_taken [] ns = true
none_taken (v ∷ vs) ns = not (has v.metric_name ns) && none_taken vs ns

none_taken-Free :
    (vs : List Vector) (ns : List String) → none_taken vs ns ≡ true → Free prometheus_laws vs ns
none_taken-Free [] ns h = tt
none_taken-Free (v ∷ vs) ns h =
    let rest : none_taken vs ns ≡ true = ground (arith, h) in
    (ground (arith, h), none_taken-Free vs ns rest)

new_recorder_total_example :
    (next : Globals) × (new_recorder before ≡ some (record { fields = vectors }, next))
    × (new_recorder next ≡ some (record { fields = vectors }, next))
    × ((n : String)
        → has n next.registry
          ≡ (named n (build_info ∷ vectors) || has n ("zen_reconciliations_total" ∷ [])))
new_recorder_total_example =
    new_recorder_total prometheus_laws before sdk_names refl refl
      (none_taken-Free (build_info ∷ vectors) sdk_names refl)

-- Everything that main calls succeeds.
instance abbrev calm : Outside
calm = record {
  client = tester.client;
  libraries = tester.libraries;
  init_tracing = λ cs. ok tt;
  require_pod_namespace = λ cs. ok "zen-lead-system";
  get_config_or_die = λ cs. ok (record { qps = pos 0; burst = pos 0 });
  apply_rest_config_defaults = λ c. c;
  apply_leader_election =
      λ m component ns id. record m { leader_election = some (component, ns, id) };
  new_manager = λ cs. ok tt;
  set_up_director = λ r cs. ok tt;
  set_up_leader_groups = λ cs. ok tt;
  add_check = λ cs. ok tt;
  start = λ cs. ok tt;
  registers = λ cs ns. ns;
}

calm_keeps : KeepsRegistry
calm_keeps cs ns n h = h

main-never_starts_example :
    Ended (main default_flags (record { steps = []; globals = before })).0
    × NotStarted (main default_flags (record { steps = []; globals = before })).1.steps
main-never_starts_example = main-never_starts prometheus_laws calm_keeps default_flags before refl

-- Where all succeeds, main panics.
main_panics : (main default_flags (record { steps = []; globals = before })).0 ≡ panic
unfolding main ◌>>=◌ try ask set_up get_recorder register_build_info
main_panics = refl

limits_of-durations_example :
    let r =
      new_service_director_reconciler tester.client tester.libraries (limits_of default_flags) in
    (r.cache_update_timeout ≡ given second 10000000000 (pos 10))
    × (r.metrics_collection_timeout ≡ given second 5000000000 (pos 5))
    × (r.fast_retry_config.initial_delay ≡ given millisecond 20000000 (pos 20))
    × (r.fast_retry_config.max_delay ≡ given millisecond 500000000 (pos 500))
    × (r.leader_pod_cache_ttl ≡ given second 30000000000 (pos 30))
limits_of-durations_example =
    limits_of-durations tester.client tester.libraries default_flags (omega arith) (omega arith)
      (omega arith) (omega arith) (omega arith)

-- A duration of 292 years and 278 days wraps to a negative one.
times_wraps : times second (pos 9223372037) ≡ negsuc 9223372036709551615
unfolding times
times_wraps = refl

abbrev web_checker : ControllerHealthChecker
web_checker = record { reconciler = some (record { client = some (λ n. ok tt); metrics = true }) }

checks_iff_example :
    ((startup_check web_checker ≡ passing) ↔ (is_some web_checker.reconciler ≡ true))
    × ((liveness_check web_checker ≡ passing) ↔ (is_some (client_of web_checker.reconciler) ≡ true))
    × ((check web_checker ≡ passing) ↔ (
        (has_metrics web_checker.reconciler ≡ true)
        × (answers (client_of web_checker.reconciler) ≡ true)))
checks_iff_example = checks_iff web_checker

cron_job_guarded : detect_strategy "cronjob" ≡ state_guard
unfolding detect_strategy
cron_job_guarded = refl

one_replica : should_enable_ha (pos 1) ≡ false
unfolding should_enable_ha
one_replica = refl
