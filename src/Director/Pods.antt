-- ===== src/Director/Pods.antt =====
-- service_director.go: when a pod is Ready, since when, and the watch's test of pod updates.
use zen_lead.Base.{
  ℕ, Bool, true, false, not, ◌&&◌, ◌||◌, Option, none, some, List, [], ◌∷◌, str_eq, is_some,
  bool_eq, if◌then◌else◌,
}
use zen_lead.Kube.Objects.{Pod, PodCondition, Object, a_pod}

-- the loop over the conditions in isPodReady: the first Ready condition decides
unfoldable pub ready_condition : List PodCondition → Bool
ready_condition [] = false
ready_condition (c ∷ cs) =
    if str_eq c.condition_type "Ready" then str_eq c.status "True" else ready_condition cs

-- isPodReady
unfoldable pub is_pod_ready : Pod → Bool
is_pod_ready p = if not (str_eq p.phase "Running") then false else ready_condition p.conditions

unfoldable pub ready_since : List PodCondition → Option ℕ
ready_since [] = none
ready_since (c ∷ cs) =
    if str_eq c.condition_type "Ready" && str_eq c.status "True"
    then some c.last_transition_time
    else ready_since cs

-- getPodReadySince
unfoldable pub get_pod_ready_since : Pod → Option ℕ
get_pod_ready_since p = ready_since p.conditions

-- `Status.Phase == corev1.PodFailed || Status.Phase == corev1.PodSucceeded`
unfoldable pub has_ended : Pod → Bool
has_ended p = str_eq p.phase "Failed" || str_eq p.phase "Succeeded"

-- UpdateFunc of the pod predicate in SetupWithManager, on two pods
unfoldable pub update_func : Pod → Pod → Bool
unfolding has_ended
update_func old new =
    if not (bool_eq (is_pod_ready old) (is_pod_ready new))
    then true
    else if not (bool_eq (is_some old.deletion_timestamp) (is_some new.deletion_timestamp))
    then true
    else if not (str_eq old.pod_ip new.pod_ip)
    then true
    else if has_ended old && not (str_eq new.phase old.phase)
    then true
    else if has_ended new && not (str_eq old.phase new.phase)
    then true
    else false

-- An event of a watch.
pub data Event : Type 0 where
  created : Object → Event
  updated : Object → Object → Event
  deleted : Object → Event
  generic : Object → Event

-- podPredicate in SetupWithManager; an update of what is no pod is dropped
unfoldable pub pod_predicate : Event → Bool
pod_predicate (created x) = true
pod_predicate (updated (a_pod old) (a_pod new)) = update_func old new
pod_predicate (updated old new) = false
pod_predicate (deleted x) = true
pod_predicate (generic x) = false
