-- ===== src/Director/Select.antt =====
-- service_director.go, selectLeaderPod: the sticky leader if it is Ready, else the earliest pod
-- that has been Ready for long enough.
pub mod Reads
pub mod Earliest
pub mod Leader
use zen_lead.Base.{
  ℕ, String, Bool, true, false, not, ◌&&◌, ◌||◌, Option, none, some, List, [], ◌∷◌, str_eq, ltb,
  ◌==◌, keep, if◌then◌else◌,
}
use zen_lead.Base.Text.{str_ltb}
use zen_lead.Base.Sort.{sort_slice}
use zen_lead.Base.Int.{ℤ, ltz, sub_ℕ, is_pos}
use zen_lead.Base.Dict.{get}
use zen_lead.Kube.Objects.{Pod, Service, Endpoint, EndpointSlice, ObjectReference}
use zen_lead.Kube.Errors.{Result, ok, err}
use zen_lead.Metrics.{record_sticky_leader_hit, record_sticky_leader_miss}
use zen_lead.Director.Reconciler.{Reconciler, State, M, ◌>>=◌, ◌>>◌, pure}
use zen_lead.Director.Calls.{now, record_event, record_metric, fetch_slice}
use zen_lead.Director.Retry.{retry_do_with_metrics}
use zen_lead.Director.Pods.{is_pod_ready, get_pod_ready_since}
use zen_lead.Director.Naming.{sticky_annotation, get_leader_service_name, get_min_ready_duration}

-- the order of sort.Slice: by creation time, then by name
unfoldable pub earlier : Pod → Pod → Bool
earlier p q =
    if not (p.creation_timestamp == q.creation_timestamp)
    then ltb p.creation_timestamp q.creation_timestamp
    else str_ltb p.name q.name

abbrev ready_long_enough : ℤ → ℕ → Option ℕ → Bool
ready_long_enough min time none = false
ready_long_enough min time (some since) = not (ltz (sub_ℕ time since) min)

-- the tests of the loop over the pods, with flap damping
unfoldable pub is_candidate : ℤ → ℕ → Pod → Bool
is_candidate min time p =
    if not (is_pod_ready p)
    then false
    else if is_pos min
    then ready_long_enough min time (get_pod_ready_since p)
    else true

-- `&readyPods[0]` after the sort, and nil where no pod is left
abbrev first : List Pod → Option Pod
first [] = none
first (p ∷ ps) = some p

unfoldable pub earliest_ready : ℤ → ℕ → List Pod → Option Pod
earliest_ready min time pods = first (sort_slice earlier (keep (is_candidate min time) pods))

-- `Annotations["zen-lead.io/sticky"]` is missing or not "false"
unfoldable pub is_sticky : Service → Bool
is_sticky svc = not (str_eq (get sticky_annotation svc.annotations) "false")

-- `endpoint.TargetRef != nil && Kind == "Pod" && UID != ""`, and the reference
unfoldable pub pod_ref : Endpoint → Option ObjectReference
pod_ref e = elim e.target_ref [
  | none ↦ none
  | some t ↦ if str_eq t.kind "Pod" && not (str_eq t.uid "") then some t else none
]

-- the loop over the pods for one endpoint: the first pod with this UID, if it is Ready
unfoldable pub ready_with_uid : String → List Pod → Option Pod
ready_with_uid uid [] = none
ready_with_uid uid (p ∷ ps) =
    if str_eq p.uid uid then (if is_pod_ready p then some p else none) else ready_with_uid uid ps

abbrev ref_uid : Option ObjectReference → List Pod → Option Pod
ref_uid none pods = none
ref_uid (some t) pods = ready_with_uid t.uid pods

-- the loop over the endpoints of the existing slice
unfoldable pub sticky_leader : List Endpoint → List Pod → Option Pod
sticky_leader [] pods = none
sticky_leader (e ∷ es) pods =
    let rest = sticky_leader es pods in
    elim (ref_uid (pod_ref e) pods) [ some p ↦ some p | none ↦ rest ]

abbrev pub sticky_in : Result EndpointSlice → List Pod → Option Pod
sticky_in (ok slice) pods = sticky_leader slice.endpoints pods
sticky_in (err e) pods = none

module _ ⦃r : Reconciler⦄ where
  -- the read of the existing slice
  unfoldable pub fetch_sticky : Service → M (Result EndpointSlice)
  fetch_sticky svc =
      retry_do_with_metrics r.libraries.default_retry
        (fetch_slice (record { namespace = svc.namespace; name = get_leader_service_name svc }))
        svc.namespace svc.name "get_endpointslice_sticky"

  unfoldable pub note_sticky : Service → Option Pod → M (Option Pod)
  note_sticky svc (some p) = do
    record_metric (record_sticky_leader_hit svc.namespace svc.name)
    pure (some p)
  note_sticky svc none = do
    record_metric (record_sticky_leader_miss svc.namespace svc.name)
    pure none

  -- the sticky part
  unfoldable pub check_sticky : Service → List Pod → M (Option Pod)
  check_sticky svc pods = do found ← fetch_sticky svc; note_sticky svc (sticky_in found pods)

  unfoldable pub note_selected : Option Pod → M (Option Pod)
  note_selected (some p) = pure (some p)
  note_selected none = do record_event "Warning" "NoReadyPods"; pure none

  -- the part after stickiness
  unfoldable pub select_earliest : Service → List Pod → M (Option Pod)
  select_earliest svc pods = do
    time ← now
    note_selected (earliest_ready (get_min_ready_duration svc) time pods)

  -- selectLeaderPod
  unfoldable pub select_leader_pod : Service → List Pod → Bool → M (Option Pod)
  select_leader_pod svc pods bypass_stickiness =
      if is_sticky svc && not bypass_stickiness
      then (do
        kept ← check_sticky svc pods
        elim kept [ some p ↦ pure (some p) | none ↦ select_earliest svc pods ])
      else select_earliest svc pods
