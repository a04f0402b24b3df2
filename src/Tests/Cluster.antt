-- ===== src/Tests/Cluster.antt =====
-- A cluster for tests: one service, three pods, and a server that keeps what was last written.
use zen_lead.Base.{
  ℕ, true, false, not, String, Option, none, some, List, [], ◌∷◌, length, str_eq, if◌then◌else◌,
}
use zen_lead.Base.Int.{pos}
use zen_lead.Kube.Objects.{Key, Pod, Service, ServicePort, named}
use zen_lead.Kube.Errors.{Result, ok, err, not_found, other, wrap}
use zen_lead.Director.Reconciler.{
  create_service, patch_service, Calls, Client, RetryConfig, Libraries, Reconciler, State,
}
use zen_lead.Director.EndpointSlices.Routes.{slice_now}
use zen_lead.Director.Retry.Laws.{RetryLaws}
use zen_lead.Tests.Retry.{do_retry, do_retry-Runs}

abbrev make_pod : String → String → ℕ → String → String → Pod
make_pod name uid created ip status = record {
  namespace = "shop";
  name = name;
  uid = uid;
  labels = ("app", "web") ∷ [];
  creation_timestamp = created;
  deletion_timestamp = none;
  node_name = "node-1";
  containers =
      record { name = "main"; ports = record { name = "http"; container_port = pos 8080 } ∷ [] }
      ∷ [];
  phase = "Running";
  conditions = record { condition_type = "Ready"; status = status; last_transition_time = 10 } ∷ [];
  pod_ip = ip;
}

abbrev pub old_pod : Pod
old_pod = make_pod "web-a" "uid-a" 5 "10.0.0.1" "False"

abbrev pub ready_pod : Pod
ready_pod = make_pod "web-b" "uid-b" 7 "10.0.0.2" "True"

abbrev pub young_pod : Pod
young_pod = make_pod "web-c" "uid-c" 9 "10.0.0.3" "True"

abbrev pub http_port : ServicePort
http_port = record {
  name = "http";
  protocol = "TCP";
  port = pos 80;
  node_port = pos 0;
  target_port = named "http";
}

abbrev pub web : Service
web = record {
  namespace = "shop";
  name = "web";
  uid = "uid-web";
  labels = ("app.kubernetes.io/instance", "argo") ∷ ("team", "shop") ∷ [];
  annotations = ("zen-lead.io/enabled", "true") ∷ [];
  owner_references = [];
  selector = ("app", "web") ∷ [];
  ports = http_port ∷ [];
  service_type = "ClusterIP";
  cluster_ip = "10.1.0.1";
}

abbrev pub web_key : Key
web_key = record { namespace = "shop"; name = "web" }

-- the leader service that the calls left
abbrev leader_service_now : Calls → Result Service
leader_service_now [] = err not_found
leader_service_now (create_service x true ∷ cs) = ok x
leader_service_now (patch_service old x true ∷ cs) = ok x
leader_service_now (c ∷ cs) = leader_service_now cs

abbrev pub found : {A : Type 0} → Option A → Result A
found none = err not_found
found (some x) = ok x

abbrev pub pods : List Pod
pods = old_pod ∷ ready_pod ∷ young_pod ∷ []

abbrev pod_named : String → List Pod → Result Pod
pod_named name [] = err not_found
pod_named name (p ∷ ps) = if str_eq p.name name then ok p else pod_named name ps

abbrev memory : Client
memory = record {
  get_service = λ cs k. if str_eq k.name "web" then ok web else leader_service_now cs;
  get_pod = λ cs k. pod_named k.name pods;
  get_slice = λ cs k. found (slice_now cs);
  list_pods = λ cs ns l. ok pods;
  list_services = λ cs ns l. ok (web ∷ []);
  list_slices = λ cs ns l. ok [];
  create_service = λ cs x. ok tt;
  patch_service = λ cs old x. ok tt;
  delete_service = λ cs x. ok tt;
  create_slice = λ cs x. ok tt;
  patch_slice = λ cs old x. ok tt;
  delete_slice = λ cs x. ok tt;
  now = λ cs. length cs;
  deadline_exceeded = λ cs. false;
}

abbrev pub three_attempts : RetryConfig
three_attempts = record {
  max_attempts = pos 3;
  initial_delay = pos 100;
  max_delay = pos 1000;
  multiplier = 2;
  retryable_errors = λ e. elim e [ not_found ↦ false | other m ↦ true | wrap m f ↦ false ];
}

abbrev go_libraries : Libraries
go_libraries = record {
  retry_do = do_retry;
  default_retry = three_attempts;
  is_dns1123_label = λ s. not (str_eq s "");
  is_dns1123_subdomain = λ s. not (str_eq s "");
  selector_matches = λ selector labels. true;
  parse_duration = λ s. none;
  parses_as_ipv6 = λ s. false;
  format_time = λ t. "";
}

abbrev pub tester : Reconciler
tester = record {
  client = memory;
  libraries = go_libraries;
  metrics = false;
  max_cache_size_per_namespace = pos 2;
  max_concurrent_reconciles = pos 10;
  cache_update_timeout = pos 10;
  metrics_collection_timeout = pos 5;
  fast_retry_config = three_attempts;
  enable_parallel_api_calls = false;
  leader_pod_cache_ttl = pos 30;
}

pub tester_laws : RetryLaws tester
tester_laws = record { runs = do_retry-Runs }

abbrev pub fresh : State
fresh = record { calls = []; opted_in_services_cache = []; leader_pod_cache = some [] }
