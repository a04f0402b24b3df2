-- ===== src/Director/Reconcile/Watch.antt =====
-- The watch's test of pod updates against what Reconcile reads of a pod.
use zen_lead.Base.{◌≡◌, false, arith, eq_iff}
use zen_lead.Kube.Objects.{Pod, a_pod, a_slice, a_service, another}
use zen_lead.Director.Pods.{
  is_pod_ready, update_func, Event, created, updated, deleted, generic, pod_predicate,
}
use zen_lead.Director.Reconcile.{is_unhealthy}

-- An update that the watch drops changes neither whether the pod is Ready, nor its address, nor
-- whether the fast path gives it up as a leader.
pub update_func_ignored :
    (old new : Pod)
    → update_func old new ≡ false
    → (is_pod_ready old ≡ is_pod_ready new)
      × (old.pod_ip ≡ new.pod_ip)
      × (is_unhealthy old ≡ is_unhealthy new)
unfolding update_func is_unhealthy
update_func_ignored old new h =
    let ready : is_pod_ready old ≡ is_pod_ready new = ground arith in
    let ip : old.pod_ip ≡ new.pod_ip = ground (arith, eq_iff old.pod_ip new.pod_ip) in
    (ready, ip, ground (arith, ready, ip))

-- What an event may tell for it to be dropped.
abbrev pub IsHarmless : Event → Type 0
IsHarmless (created x) = ⊥
IsHarmless (updated (a_pod old) (a_pod new)) =
    (is_pod_ready old ≡ is_pod_ready new)
    × (old.pod_ip ≡ new.pod_ip)
    × (is_unhealthy old ≡ is_unhealthy new)
IsHarmless (updated old new) = Unit
IsHarmless (deleted x) = ⊥
IsHarmless (generic x) = Unit

-- The pod watch drops no creation and no deletion. An update of a pod that it drops changes neither
-- whether the pod is Ready, nor its address, nor whether the fast path gives it up as a leader.
pub pod_predicate_ignored : (e : Event) → pod_predicate e ≡ false → IsHarmless e
unfolding pod_predicate
pod_predicate_ignored (created x) h = cc
pod_predicate_ignored (updated (a_pod old) (a_pod new)) h = update_func_ignored old new h
pod_predicate_ignored (updated (a_pod old) (a_slice y)) h = tt
pod_predicate_ignored (updated (a_pod old) (a_service y)) h = tt
pod_predicate_ignored (updated (a_pod old) another) h = tt
pod_predicate_ignored (updated (a_slice x) y) h = tt
pod_predicate_ignored (updated (a_service x) y) h = tt
pod_predicate_ignored (updated another y) h = tt
pod_predicate_ignored (deleted x) h = cc
pod_predicate_ignored (generic x) h = tt
