-- ===== src/Api/DeepCopy/Copies.antt =====
-- The copying functions of leadergroup_types.go make deep copies, if those of apimachinery do.
use zen_lead.Base.{◌≡◌, refl, ◌∙◌, String, Option}
use zen_lead.Base.Int.{ℤ}
use zen_lead.Api.Memory.{
  Foreign, duration, int32, int64, selector, lease_settings, routing_settings, conditions,
  group_spec, group_status, group, group_list, groups, TypeMeta, LeaseSettings, RoutingSettings,
  LeaderGroupSpec, LeaderGroupStatus, LeaderGroup, LeaderGroupList, Pointer, Heap, Same, pure,
  ◌>>=◌,
}
use zen_lead.Api.DeepCopy.{
  Copying, deep_copy_into_lease_settings, deep_copy_into_routing_settings, deep_copy_into_spec,
  deep_copy_into_status, deep_copy_into_group, deep_copy_into_list, deep_copy_lease_settings,
  deep_copy_routing_settings, deep_copy_spec, deep_copy_status, deep_copy, deep_copy_list,
}
use zen_lead.Api.DeepCopy.Shapes.{Shape, plain, via, Both, ◌&◌, both, option, list, pointer}
use zen_lead.Api.DeepCopy.Rules.{
  IsDeepCopy, Copies, Copies-pure, copy_both, Copies-both, Copies-via, Copies-option, Copies-list,
  Copies-pointer,
}

-- What apimachinery documents of its types: they have values, and DeepCopyInto copies them deeply.
pub record Documented ⦃f : Foreign⦄ ⦃c : Copying⦄ : Type 1 where
  pub object_meta : Shape f.ObjectMeta
  pub object_meta_copies : Copies object_meta c.object_meta
  pub list_meta : Shape f.ListMeta
  pub list_meta_copies : Copies list_meta c.list_meta
  pub label_selector : Shape f.LabelSelector
  pub label_selector_copies : Copies label_selector c.label_selector
  pub condition : Shape f.Condition
  pub condition_copies : Copies condition c.condition
  pub time : Shape f.TimePointer
  pub time_copies : Copies time c.time

abbrev settings_parts : LeaseSettings → Both Pointer (Both Pointer Pointer)
settings_parts s = s.duration & s.renew_deadline & s.retry_period

abbrev spec_parts :
    LeaderGroupSpec → Both (Both String String) (Both Pointer (Both Pointer Pointer))
spec_parts s = (s.group_type & s.component) & s.selector & s.lease & s.routing

module _ ⦃f : Foreign⦄ where
  abbrev status_parts :
      LeaderGroupStatus
      → Both
          (Both String String)
          (Both (Option f.TimePointer) (Both Pointer (Both Pointer Pointer)))
  status_parts s =
      (s.holder_identity & s.observed_lease_resource_version)
      & s.renew_time
      & s.lease_duration_seconds
      & s.fencing_token
      & s.conditions

  abbrev group_parts :
      LeaderGroup → Both TypeMeta (Both f.ObjectMeta (Both LeaderGroupSpec LeaderGroupStatus))
  group_parts g = g.type_meta & g.object_meta & g.spec & g.status

  abbrev list_parts : LeaderGroupList → Both TypeMeta (Both f.ListMeta Pointer)
  list_parts l = l.type_meta & l.list_meta & l.items

  abbrev int_pointer : Shape Pointer
  int_pointer = pointer duration (plain ℤ)

  abbrev pub settings : Shape LeaseSettings
  settings = via settings_parts (both int_pointer (both int_pointer int_pointer))

  settings-Copies : Copies settings deep_copy_into_lease_settings
  unfolding deep_copy_into_lease_settings copy_both pure ◌>>=◌
  settings-Copies =
      let one = Copies-pointer duration (plain ℤ) pure Copies-pure in
      Copies-via _ settings_parts _ _ (Copies-both _ _ _ _ one (Copies-both _ _ _ _ one one))
        λ s h. (refl, refl)

  abbrev pub routing : Shape RoutingSettings
  routing = plain RoutingSettings

  routing-Copies : Copies routing deep_copy_into_routing_settings
  unfolding deep_copy_into_routing_settings
  routing-Copies = Copies-pure

  module _ ⦃c : Copying⦄ (d : Documented) where
    abbrev pub spec : Shape LeaderGroupSpec
    spec = via spec_parts (
        both (both (plain String) (plain String)) (
          both (pointer selector d.label_selector)
            (both (pointer lease_settings settings) (pointer routing_settings routing))))

    spec-Copies : Copies spec deep_copy_into_spec
    unfolding deep_copy_into_spec copy_both pure ◌>>=◌
    spec-Copies =
        Copies-via _ spec_parts _ _
          (Copies-both _ _ _ _ (Copies-both _ _ _ _ Copies-pure Copies-pure) (
            Copies-both _ _ _ _ (Copies-pointer selector _ _ d.label_selector_copies) (
              Copies-both _ _ _ _ (Copies-pointer lease_settings _ _ settings-Copies)
                (Copies-pointer routing_settings _ _ routing-Copies))))
          λ s h. (refl, refl)

    abbrev pub status : Shape LeaderGroupStatus
    status = via status_parts (
        both (both (plain String) (plain String)) (
          both (option d.time) (
            both (pointer int32 (plain ℤ))
              (both (pointer int64 (plain ℤ)) (pointer conditions (list d.condition))))))

    status-Copies : Copies status deep_copy_into_status
    unfolding deep_copy_into_status copy_both pure ◌>>=◌
    status-Copies =
        Copies-via _ status_parts _ _
          (Copies-both _ _ _ _ (Copies-both _ _ _ _ Copies-pure Copies-pure) (
            Copies-both _ _ _ _ (Copies-option _ _ d.time_copies) (
              Copies-both _ _ _ _ (Copies-pointer int32 _ _ Copies-pure) (
                Copies-both _ _ _ _ (Copies-pointer int64 _ _ Copies-pure)
                  (Copies-pointer conditions _ _ (Copies-list _ _ d.condition_copies))))))
          λ s h. (refl, refl)

    abbrev pub whole_group : Shape LeaderGroup
    whole_group = via group_parts (both (plain TypeMeta) (both d.object_meta (both spec status)))

    group-Copies : Copies whole_group deep_copy_into_group
    unfolding deep_copy_into_group copy_both pure ◌>>=◌
    group-Copies =
        Copies-via _ group_parts _ _
          (Copies-both _ _ _ _ Copies-pure (
            Copies-both _ _ _ _ d.object_meta_copies
              (Copies-both _ _ _ _ spec-Copies status-Copies)))
          λ g h. (refl, refl)

    abbrev pub whole_list : Shape LeaderGroupList
    whole_list =
        via list_parts
          (both (plain TypeMeta) (both d.list_meta (pointer groups (list whole_group))))

    list-Copies : Copies whole_list deep_copy_into_list
    unfolding deep_copy_into_list copy_both pure ◌>>=◌
    list-Copies =
        Copies-via _ list_parts _ _
          (Copies-both _ _ _ _ Copies-pure (
            Copies-both _ _ _ _ d.list_meta_copies
              (Copies-pointer groups _ _ (Copies-list _ _ group-Copies))))
          λ l h. (refl, refl)

    deep_copy_lease_settings-Copies :
        Copies (pointer lease_settings settings) deep_copy_lease_settings
    unfolding deep_copy_lease_settings
    deep_copy_lease_settings-Copies = Copies-pointer lease_settings _ _ settings-Copies

    deep_copy_routing_settings-Copies :
        Copies (pointer routing_settings routing) deep_copy_routing_settings
    unfolding deep_copy_routing_settings
    deep_copy_routing_settings-Copies = Copies-pointer routing_settings _ _ routing-Copies

    deep_copy_spec-Copies : Copies (pointer group_spec spec) deep_copy_spec
    unfolding deep_copy_spec
    deep_copy_spec-Copies = Copies-pointer group_spec _ _ spec-Copies

    deep_copy_status-Copies : Copies (pointer group_status status) deep_copy_status
    unfolding deep_copy_status
    deep_copy_status-Copies = Copies-pointer group_status _ _ status-Copies

    -- DeepCopy of a group gives nil for nil, and otherwise a pointer to a group with the same value,
    -- all of whose cells are new; no cell that was in use has changed. The group's own cells are in
    -- use, and DeepCopyInto of the types that are not the repository's copies deeply.
    pub deep_copy-IsDeepCopy :
        (in_group : Pointer) (h : Heap)
        → (pointer group whole_group).Within 0 h.next h in_group
        → IsDeepCopy
            (pointer group whole_group)
            in_group
            h
            (deep_copy in_group h).0
            (deep_copy in_group h).1
    unfolding deep_copy
    deep_copy-IsDeepCopy in_group h w = (Copies-pointer group _ _ group-Copies).at in_group h w

    -- A list of groups and its copy do not share memory. Whatever is then written to cells other than
    -- the new ones, the copy stands for what the list stood for, and whatever is written to the new
    -- ones, the list does. The list's own cells are in use, and DeepCopyInto of the types that are not
    -- the repository's copies deeply.
    pub deep_copy_list-isolated :
        (in_list : Pointer) (h after_old after_new : Heap)
        → (pointer group_list whole_list).Within 0 h.next h in_list
        → Same h.next (deep_copy_list in_list h).1.next after_old (deep_copy_list in_list h).1
        → Same 0 h.next after_new (deep_copy_list in_list h).1
        → ((pointer group_list whole_list).view after_old (deep_copy_list in_list h).0
            ≡ (pointer group_list whole_list).view h in_list)
          × ((pointer group_list whole_list).view after_new in_list
              ≡ (pointer group_list whole_list).view h in_list)
    unfolding deep_copy_list
    deep_copy_list-isolated in_list h after_old after_new w old new =
        let shape = pointer group_list whole_list in
        let (out, g) = deep_copy_list in_list h in
        let c = (Copies-pointer group_list _ _ list-Copies).at in_list h w in
        (
          shape.frame_view h.next g.next after_old g out old c.fresh ∙ c.same,
          shape.frame_view 0 h.next after_new h in_list
              (λ k a lo hi. new k a lo hi ∙ c.kept k a lo hi) w,
        )
