-- ===== src/Api/DeepCopy.antt =====
-- leadergroup_types.go: DeepCopyInto and DeepCopy of each type. `*out = *in` is the record that a
-- function starts from. The copying functions of apimachinery's types are parameters.
pub mod Shapes
pub mod Rules
pub mod Copies
use zen_lead.Base.{Option, none, some, List, [], ◌∷◌}
use zen_lead.Api.Memory.{
  Foreign, Sort, duration, int32, int64, selector, lease_settings, routing_settings, conditions,
  group_spec, group_status, group, group_list, groups, Content, Pointer, LeaseSettings,
  RoutingSettings, LeaderGroupSpec, LeaderGroupStatus, LeaderGroup, LeaderGroupList, M, pure, ◌>>=◌,
  load, alloc,
}

-- (*in).DeepCopyInto(&out) of the embedded types, and DeepCopy of *metav1.Time.
pub record Copying ⦃f : Foreign⦄ : Type 0 where
  pub object_meta : f.ObjectMeta → M f.ObjectMeta
  pub list_meta : f.ListMeta → M f.ListMeta
  pub label_selector : f.LabelSelector → M f.LabelSelector
  pub condition : f.Condition → M f.Condition
  pub time : f.TimePointer → M f.TimePointer

module _ ⦃f : Foreign⦄ where
  -- `if in != nil { out = new(T); in.DeepCopyInto(out) }`
  pub copy_pointer : (k : Sort) → (Content k → M (Content k)) → Pointer → M Pointer
  unfolding ◌>>=◌ load
  copy_pointer k copy none = pure none
  copy_pointer k copy (some p) = do x ← load k p; y ← copy x; q ← alloc k y; pure (some q)

  -- `for i := range *in { (*in)[i].DeepCopyInto(&(*out)[i]) }`
  pub copy_list : {A : Type 0} → (A → M A) → List A → M (List A)
  unfolding ◌>>=◌
  copy_list copy [] = pure []
  copy_list copy (x ∷ xs) = do y ← copy x; ys ← copy_list copy xs; pure (y ∷ ys)

  pub copy_option : {A : Type 0} → (A → M A) → Option A → M (Option A)
  unfolding ◌>>=◌
  copy_option copy none = pure none
  copy_option copy (some x) = do y ← copy x; pure (some y)

  pub deep_copy_into_lease_settings : LeaseSettings → M LeaseSettings
  unfolding copy_pointer
  deep_copy_into_lease_settings s = do
    d ← copy_pointer duration pure s.duration
    r ← copy_pointer duration pure s.renew_deadline
    p ← copy_pointer duration pure s.retry_period
    pure (record s { duration = d; renew_deadline = r; retry_period = p })

  pub deep_copy_into_routing_settings : RoutingSettings → M RoutingSettings
  deep_copy_into_routing_settings s = pure s

  module _ ⦃c : Copying⦄ where
    pub deep_copy_into_spec : LeaderGroupSpec → M LeaderGroupSpec
    unfolding copy_pointer deep_copy_into_lease_settings deep_copy_into_routing_settings
    deep_copy_into_spec s = do
      sel ← copy_pointer selector c.label_selector s.selector
      lease ← copy_pointer lease_settings deep_copy_into_lease_settings s.lease
      routing ← copy_pointer routing_settings deep_copy_into_routing_settings s.routing
      pure (record s { selector = sel; lease = lease; routing = routing })

    pub deep_copy_into_status : LeaderGroupStatus → M LeaderGroupStatus
    unfolding copy_pointer copy_option copy_list
    deep_copy_into_status s = do
      time ← copy_option c.time s.renew_time
      seconds ← copy_pointer int32 pure s.lease_duration_seconds
      token ← copy_pointer int64 pure s.fencing_token
      found ← copy_pointer conditions (copy_list c.condition) s.conditions
      pure (record s {
        renew_time = time;
        lease_duration_seconds = seconds;
        fencing_token = token;
        conditions = found;
      })

    pub deep_copy_into_group : LeaderGroup → M LeaderGroup
    unfolding deep_copy_into_spec deep_copy_into_status
    deep_copy_into_group g = do
      meta ← c.object_meta g.object_meta
      spec ← deep_copy_into_spec g.spec
      status ← deep_copy_into_status g.status
      pure (record g { object_meta = meta; spec = spec; status = status })

    pub deep_copy_into_list : LeaderGroupList → M LeaderGroupList
    unfolding copy_pointer copy_list deep_copy_into_group
    deep_copy_into_list l = do
      meta ← c.list_meta l.list_meta
      items ← copy_pointer groups (copy_list deep_copy_into_group) l.items
      pure (record l { list_meta = meta; items = items })

    -- DeepCopy of each type, and DeepCopyObject of the last two
    pub deep_copy_lease_settings : Pointer → M Pointer
    unfolding copy_pointer deep_copy_into_lease_settings
    deep_copy_lease_settings = copy_pointer lease_settings deep_copy_into_lease_settings

    pub deep_copy_routing_settings : Pointer → M Pointer
    unfolding copy_pointer deep_copy_into_routing_settings
    deep_copy_routing_settings = copy_pointer routing_settings deep_copy_into_routing_settings

    pub deep_copy_spec : Pointer → M Pointer
    unfolding copy_pointer deep_copy_into_spec
    deep_copy_spec = copy_pointer group_spec deep_copy_into_spec

    pub deep_copy_status : Pointer → M Pointer
    unfolding copy_pointer deep_copy_into_status
    deep_copy_status = copy_pointer group_status deep_copy_into_status

    pub deep_copy : Pointer → M Pointer
    unfolding copy_pointer deep_copy_into_group
    deep_copy = copy_pointer group deep_copy_into_group

    pub deep_copy_list : Pointer → M Pointer
    unfolding copy_pointer deep_copy_into_list
    deep_copy_list = copy_pointer group_list deep_copy_into_list
