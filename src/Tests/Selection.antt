-- ===== src/Tests/Selection.antt =====
-- Leader selection, ports and labels on concrete pods.
use zen_lead.Director.Reconcile.{is_unhealthy}
use zen_lead.Director.Calls.{fetch_slice}
use zen_lead.Director.Retry.{retry_do_with_metrics}
use zen_lead.Director.Reconciler.{◌>>=◌}
use zen_lead.Base.{
  ap, ◌∙◌, eq_iff, ◌≡◌, ◌≢◌, refl, sym, ◌↔◌, inl, inr, true, false, String, none, some, List, [],
  ◌∷◌, In, Any, str_eq,
}
use zen_lead.Base.Int.{pos, is_pos}
use zen_lead.Base.Dict.{lookup}
use zen_lead.Base.Sort.{sort_slice}
use zen_lead.Kube.Objects.{Pod, ServicePort, number}
use zen_lead.Kube.Errors.{ok}
use zen_lead.Director.Pods.{is_pod_ready, get_pod_ready_since, ready_condition, ready_since}
use zen_lead.Director.Naming.{get_min_ready_duration}
use zen_lead.Director.EndpointSlices.{build_endpoint}
use zen_lead.Director.Ports.{resolve_service_ports, find_port}
use zen_lead.Director.Ports.Resolution.{
  declared_port, numbered_ports, resolve_service_ports_iff, target_number,
}
use zen_lead.Director.Select.{
  is_candidate, earlier, earliest_ready, sticky_leader, pod_ref, ready_with_uid, select_leader_pod,
  check_sticky, fetch_sticky, is_sticky, note_selected, note_sticky, select_earliest,
}
use zen_lead.Director.Select.Earliest.{earliest_ready_sound, earliest_ready_order}
use zen_lead.Director.Select.Leader.{
  RefersTo, sticky_leader_sound, select_leader_pod_ready, select_leader_pod_total,
}
use zen_lead.Tests.Cluster.{ready_pod, young_pod, pods, http_port, web, tester, fresh}

earliest_of_three : earliest_ready (pos 3) 20 pods ≡ some ready_pod
unfolding earliest_ready is_candidate is_pod_ready get_pod_ready_since sort_slice earlier
    ready_condition ready_since
earliest_of_three = refl

damped : earliest_ready (pos 11) 20 pods ≡ none
unfolding earliest_ready is_candidate is_pod_ready get_pod_ready_since sort_slice earlier
    ready_condition ready_since
damped = refl

ready_pod-In : In ready_pod pods
ready_pod-In = inr (inl refl)

ready_pod_ready : is_pod_ready ready_pod ≡ true
unfolding is_pod_ready ready_condition
ready_pod_ready = refl

ready_pod_candidate : is_candidate (pos 3) 20 ready_pod ≡ true
unfolding is_candidate is_pod_ready get_pod_ready_since ready_condition ready_since
ready_pod_candidate = refl

earliest_ready_sound_example :
    In ready_pod pods
    × (is_candidate (pos 3) 20 ready_pod ≡ true)
    × ((q : Pod) → In q pods → is_candidate (pos 3) 20 q ≡ true → earlier q ready_pod ≡ false)
earliest_ready_sound_example = earliest_ready_sound (pos 3) 20 pods ready_pod earliest_of_three

pub differ : (a b : String) → str_eq a b ≡ false → a ≢ b
differ a b h e = cc ((eq_iff a b).1 e)

same_members : (p : Pod) → In p (ready_pod ∷ young_pod ∷ []) ↔ In p (young_pod ∷ ready_pod ∷ [])
same_members p = (
  λ h. elim h [ inl e ↦ inr (inl e) | inr (inl e) ↦ inl e | inr (inr x) ↦ absurd x ],
  λ h. elim h [ inl e ↦ inr (inl e) | inr (inl e) ↦ inl e | inr (inr x) ↦ absurd x ],
)

distinct_names :
    (p q : Pod)
    → In p (ready_pod ∷ young_pod ∷ [])
    → In q (ready_pod ∷ young_pod ∷ [])
    → p.name ≡ q.name
    → p ≡ q
distinct_names p q (inl e) (inl f) h = sym e ∙ f
distinct_names p q (inl e) (inr (inl f)) h =
    absurd (differ "web-b" "web-c" refl (ap (λ x. x.name) e ∙ h ∙ sym (ap (λ x. x.name) f)))
distinct_names p q (inr (inl e)) (inl f) h =
    absurd (differ "web-c" "web-b" refl (ap (λ x. x.name) e ∙ h ∙ sym (ap (λ x. x.name) f)))
distinct_names p q (inr (inl e)) (inr (inl f)) h = sym e ∙ f
distinct_names p q (inl e) (inr (inr x)) h = absurd x
distinct_names p q (inr (inl e)) (inr (inr x)) h = absurd x
distinct_names p q (inr (inr x)) m h = absurd x

earliest_ready_order_example :
    earliest_ready (pos 3) 20 (ready_pod ∷ young_pod ∷ [])
    ≡ earliest_ready (pos 3) 20 (young_pod ∷ ready_pod ∷ [])
earliest_ready_order_example =
    earliest_ready_order (pos 3) 20 (ready_pod ∷ young_pod ∷ []) (young_pod ∷ ready_pod ∷ [])
      same_members distinct_names

sticky_two : sticky_leader (build_endpoint (some young_pod) ∷ []) pods ≡ some young_pod
unfolding sticky_leader build_endpoint pod_ref ready_with_uid is_pod_ready ready_condition
sticky_two = refl

sticky_leader_sound_example :
    In young_pod pods
    × (is_pod_ready young_pod ≡ true)
    × Any (RefersTo "uid-c") (build_endpoint (some young_pod) ∷ [])
sticky_leader_sound_example =
    sticky_leader_sound (build_endpoint (some young_pod) ∷ []) pods young_pod sticky_two

pub only_young : (q : Pod) → In q pods → q.uid ≡ "uid-c" → q ≡ young_pod
only_young q (inl e) h = absurd (differ "uid-a" "uid-c" refl (ap (λ x. x.uid) e ∙ h))
only_young q (inr (inl e)) h = absurd (differ "uid-b" "uid-c" refl (ap (λ x. x.uid) e ∙ h))
only_young q (inr (inr (inl e))) h = sym e
only_young q (inr (inr (inr x))) h = absurd x

pub young_pod_ready : is_pod_ready young_pod ≡ true
unfolding is_pod_ready ready_condition
young_pod_ready = refl

selected : (select_leader_pod ⦃r = tester⦄ web pods false fresh).0 ≡ some ready_pod
unfolding select_leader_pod is_sticky lookup ◌>>=◌ check_sticky note_sticky fetch_sticky
    retry_do_with_metrics fetch_slice select_earliest note_selected earliest_ready sort_slice
    is_candidate is_pod_ready ready_condition get_min_ready_duration earlier
selected = refl

select_leader_pod_ready_example : In ready_pod pods × (is_pod_ready ready_pod ≡ true)
select_leader_pod_ready_example =
    select_leader_pod_ready ⦃r = tester⦄ web pods false fresh ready_pod selected

undamped : is_pos (get_min_ready_duration ⦃r = tester⦄ web) ≡ false
unfolding get_min_ready_duration lookup
undamped = refl

select_leader_pod_total_example :
    (p : Pod) × ((select_leader_pod ⦃r = tester⦄ web pods false fresh).0 ≡ some p)
select_leader_pod_total_example =
    select_leader_pod_total ⦃r = tester⦄ web pods false fresh ready_pod undamped ready_pod-In
      ready_pod_ready

abbrev numbered : List ServicePort
numbered = record http_port { target_port = number (pos 8080) } ∷ []

http_numbered : numbered_ports (some ready_pod) (http_port ∷ []) ≡ some numbered
unfolding numbered_ports target_number declared_port find_port
http_numbered = refl

resolve_service_ports_iff_example :
    ((resolve_service_ports ⦃r = tester⦄ web (some ready_pod) fresh).0 ≡ ok numbered)
    ↔ (numbered_ports (some ready_pod) web.ports ≡ some numbered)
resolve_service_ports_iff_example =
    resolve_service_ports_iff ⦃r = tester⦄ web (some ready_pod) numbered fresh

abbrev ending_pod : Pod
ending_pod = record ready_pod { deletion_timestamp = some 15 }

-- a leader that is terminating is given up, and selected again
ending_given_up : is_unhealthy ending_pod ≡ true
unfolding is_unhealthy
ending_given_up = refl

ending_selected : earliest_ready (pos 0) 20 (ending_pod ∷ young_pod ∷ []) ≡ some ending_pod
unfolding earliest_ready is_candidate is_pod_ready sort_slice earlier ready_condition
ending_selected = refl
