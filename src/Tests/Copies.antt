-- ===== src/Tests/Copies.antt =====
-- Copies of a LeaderGroup, and the samples of a recording, on concrete inputs.
use zen_lead.Base.{
  ℕ, ◌≡◌, refl, String, true, none, some, [], ◌∷◌, ◌++◌, All, arith, ltb, ◌<◌, ◌≤◌, false,
  if◌then◌else◌,
}
use zen_lead.Base.Int.{pos}
use zen_lead.Api.Memory.{
  Foreign, Sort, duration, int32, int64, selector, lease_settings, routing_settings, conditions,
  group_spec, group_status, group, group_list, groups, hidden, Content, LeaseSettings, LeaderGroup,
  LeaderGroupList, Heap, pure,
}
use zen_lead.Api.DeepCopy.{Copying, deep_copy, deep_copy_list}
use zen_lead.Api.DeepCopy.Shapes.{plain, pointer}
use zen_lead.Api.DeepCopy.Rules.{IsDeepCopy, Copies-pure}
use zen_lead.Api.DeepCopy.Copies.{
  Documented, whole_group, whole_list, deep_copy-IsDeepCopy, deep_copy_list-isolated,
}
use zen_lead.Metrics.{
  record_leader_duration, record_failover, record_reconciliation_duration, record_pods_available,
  record_port_resolution_failure, record_reconciliation_error, reset_leader_duration,
  record_leader_services_total, record_endpoint_slices_total, record_sticky_leader_hit,
  record_sticky_leader_miss, record_leader_selection_attempt, record_leader_pod_age,
  record_leader_service_without_endpoints, record_reconciliation, record_leader_stable,
  record_endpoint_write_error, record_retry_attempt, record_retry_success_after_retry,
  record_cache_size, record_cache_update_duration, record_cache_hit, record_cache_miss,
  record_timeout, record_failover_latency, record_api_call_duration,
}
use zen_lead.Metrics.Fits.{fits, recordings-fit}

-- apimachinery's types as texts, which hold no pointers.
instance abbrev texts : Foreign
texts = record {
  ObjectMeta = String;
  ListMeta = String;
  LabelSelector = String;
  Condition = String;
  TimePointer = ℕ;
  Hidden = ℕ;
}

instance abbrev copy_texts : Copying
copy_texts = record {
  object_meta = pure;
  list_meta = pure;
  label_selector = pure;
  condition = pure;
  time = pure;
}

abbrev texts_documented : Documented
texts_documented = record {
  object_meta = plain String;
  object_meta_copies = Copies-pure;
  list_meta = plain String;
  list_meta_copies = Copies-pure;
  label_selector = plain String;
  label_selector_copies = Copies-pure;
  condition = plain String;
  condition_copies = Copies-pure;
  time = plain ℕ;
  time_copies = Copies-pure;
}

-- Address 0 has a duration, 1 the lease settings that point to it, 2 a group with these settings, 3
-- an array with the group, and 4 the list.
abbrev settings_at : LeaseSettings
settings_at = record { duration = some 0; renew_deadline = none; retry_period = some 0 }

abbrev web_group : LeaderGroup
web_group = record {
  type_meta = record { kind = "LeaderGroup"; api_version = "leadership.kube-zen.io/v1alpha1" };
  object_meta = "web";
  spec = record {
    group_type = "controller";
    selector = none;
    component = "web";
    lease = some 1;
    routing = none;
  };
  status = record {
    holder_identity = "";
    renew_time = none;
    lease_duration_seconds = none;
    fencing_token = none;
    observed_lease_resource_version = "";
    conditions = none;
  };
}

abbrev web_list : LeaderGroupList
web_list = record { type_meta = web_group.type_meta; list_meta = ""; items = some 3 }

abbrev content : (k : Sort) → Content k
content duration = pos 15
content int32 = pos 0
content int64 = pos 0
content selector = ""
content lease_settings = settings_at
content routing_settings = record { enabled = true }
content conditions = []
content group_spec = web_group.spec
content group_status = web_group.status
content group = web_group
content group_list = web_list
content groups = web_group ∷ []
content hidden = 0

abbrev five_cells : Heap
five_cells = record { next = 5; cell = λ k a. content k }

deep_copy-IsDeepCopy_example :
    IsDeepCopy
      (pointer group (whole_group texts_documented))
      (some 2)
      five_cells
      (deep_copy (some 2) five_cells).0
      (deep_copy (some 2) five_cells).1
deep_copy-IsDeepCopy_example =
    deep_copy-IsDeepCopy texts_documented (some 2) five_cells (omega arith)

abbrev copied : Heap
copied = (deep_copy_list (some 4) five_cells).1

-- The memory after all old cells have been overwritten, and after all new ones have.
abbrev other_content : (k : Sort) → Content k
other_content duration = pos 99
other_content k = content k

abbrev old_overwritten : Heap
old_overwritten = record copied {
  cell = λ k a. if ltb a 5 then other_content k else copied.cell k a;
}

abbrev new_overwritten : Heap
new_overwritten = record copied {
  cell = λ k a. if ltb a 5 then copied.cell k a else other_content k;
}

is_below : (a : ℕ) → a < 5 → ltb a 5 ≡ true
is_below a h = ground arith

not_below : (a : ℕ) → 5 ≤ a → ltb a 5 ≡ false
not_below a h = ground arith

deep_copy_list-isolated_example :
    ((pointer group_list (whole_list texts_documented)).view old_overwritten
        (deep_copy_list (some 4) five_cells).0
      ≡ (pointer group_list (whole_list texts_documented)).view five_cells (some 4))
    × ((pointer group_list (whole_list texts_documented)).view new_overwritten (some 4)
        ≡ (pointer group_list (whole_list texts_documented)).view five_cells (some 4))
deep_copy_list-isolated_example =
    deep_copy_list-isolated texts_documented (some 4) five_cells old_overwritten new_overwritten
      (omega arith) (λ k a lo hi. rw (not_below a lo) refl) (λ k a lo hi. rw (is_below a hi) refl)

recordings-fit_example :
    All
      (λ s. fits s ≡ true)
      (record_leader_duration "shop" "web" 3
        ++ record_failover "shop" "web" "notReady"
        ++ record_reconciliation_duration "shop" "web" "notReady" 3
        ++ record_pods_available "shop" "web" 3
        ++ record_port_resolution_failure "shop" "web" "notReady"
        ++ record_reconciliation_error "shop" "web" "notReady"
        ++ reset_leader_duration "shop" "web"
        ++ record_leader_services_total "shop" 3
        ++ record_endpoint_slices_total "shop" 3
        ++ record_sticky_leader_hit "shop" "web"
        ++ record_sticky_leader_miss "shop" "web"
        ++ record_leader_selection_attempt "shop" "web"
        ++ record_leader_pod_age "shop" "web" 3
        ++ record_leader_service_without_endpoints "shop" "web" true
        ++ record_reconciliation "shop" "web" "notReady"
        ++ record_leader_stable "shop" "web" true
        ++ record_endpoint_write_error "shop" "web"
        ++ record_retry_attempt "shop" "web" "notReady" "max"
        ++ record_retry_success_after_retry "shop" "web" "notReady"
        ++ record_cache_size "shop" 3
        ++ record_cache_update_duration "shop" 3
        ++ record_cache_hit "shop"
        ++ record_cache_miss "shop"
        ++ record_timeout "shop" "notReady"
        ++ record_failover_latency "shop" "web" "notReady" 3
        ++ record_api_call_duration "shop" "web" "notReady" "max" 3)
recordings-fit_example = recordings-fit "shop" "web" "notReady" "max" 3 true
