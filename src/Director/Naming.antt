-- ===== src/Director/Naming.antt =====
-- service_director.go: annotation keys, labels, the leader service's name, and cache keys.
use zen_lead.Base.{String, Bool, not, ◌||◌, Option, none, some, str_eq, if◌then◌else◌}
use zen_lead.Base.Text.{append}
use zen_lead.Base.Int.{ℤ, pos}
use zen_lead.Base.Dict.{get}
use zen_lead.Kube.Objects.{Service}
use zen_lead.Director.Reconciler.{Reconciler}

abbrev pub enabled_annotation : String
enabled_annotation = "zen-lead.io/enabled"

abbrev pub leader_service_name_annotation : String
leader_service_name_annotation = "zen-lead.io/leader-service-name"

abbrev pub sticky_annotation : String
sticky_annotation = "zen-lead.io/sticky"

abbrev pub min_ready_duration_annotation : String
min_ready_duration_annotation = "zen-lead.io/min-ready-duration"

abbrev pub service_suffix : String
service_suffix = "-leader"

abbrev pub current_leader_annotation : String
current_leader_annotation = "zen-lead.io/current-leader"

abbrev pub leader_pod_name_annotation : String
leader_pod_name_annotation = "zen-lead.io/leader-pod-name"

abbrev pub leader_pod_uid_annotation : String
leader_pod_uid_annotation = "zen-lead.io/leader-pod-uid"

abbrev pub leader_last_switch_time_annotation : String
leader_last_switch_time_annotation = "zen-lead.io/leader-last-switch-time"

abbrev pub managed_by_label : String
managed_by_label = "app.kubernetes.io/managed-by"

abbrev pub source_service_label : String
source_service_label = "zen-lead.io/source-service"

abbrev pub endpoint_slice_managed_by_label : String
endpoint_slice_managed_by_label = "endpointslice.kubernetes.io/managed-by"

abbrev pub service_name_label : String
service_name_label = "kubernetes.io/service-name"

-- LabelManagedByValue, LabelEndpointSliceManagedByValue
abbrev pub managed_by_value : String
managed_by_value = "zen-lead"

-- `svc.Annotations != nil && svc.Annotations[AnnotationEnabledService] == "true"`
unfoldable pub is_enabled : Service → Bool
is_enabled svc = str_eq (get enabled_annotation svc.annotations) "true"

-- `fmt.Sprintf("%s/%s", svc.Namespace, svc.Name)`
unfoldable pub cache_key : String → String → String
cache_key ns name = append ns (append "/" name)

module _ ⦃r : Reconciler⦄ where
  -- the name before it is validated
  unfoldable pub wanted_name : Service → String
  wanted_name svc =
      let custom = get leader_service_name_annotation svc.annotations in
      if not (str_eq custom "") then custom else append svc.name service_suffix

  -- getLeaderServiceName
  unfoldable pub get_leader_service_name : Service → String
  get_leader_service_name svc =
      if r.libraries.is_dns1123_subdomain (wanted_name svc)
      then wanted_name svc
      else if r.libraries.is_dns1123_subdomain (append svc.name service_suffix)
      then append svc.name service_suffix
      else svc.name

  abbrev parsed_duration : Option ℤ → ℤ
  parsed_duration none = pos 0
  parsed_duration (some d) = d

  -- getMinReadyDuration
  unfoldable pub get_min_ready_duration : Service → ℤ
  get_min_ready_duration svc =
      let text = get min_ready_duration_annotation svc.annotations in
      if str_eq text "" || str_eq text "0s"
      then pos 0
      else parsed_duration (r.libraries.parse_duration text)
