-- ===== src/LeaderGroup/Calls.antt =====
-- leadergroup_controller.go: the calls on the API server and the clock. As in the Director, every
-- answer is a function of the calls made so far. A create and an update return the object as the
-- server has stored it, since controller-runtime writes it back into the argument.
use zen_lead.Base.{ℕ, Bool, List, ◌∷◌}
use zen_lead.Kube.Objects.{Key}
use zen_lead.Kube.Errors.{Result, is_ok}
use zen_lead.LeaderGroup.Objects.{LeaderGroup, Lease}

pub data GroupCall : Type 0 where
  read_time : GroupCall
  get_group get_lease : Key → GroupCall
  create_lease update_lease delete_lease : Lease → Bool → GroupCall
  update_status : LeaderGroup → Bool → GroupCall

abbrev pub GroupCalls : Type 0
GroupCalls = List GroupCall

-- controller-runtime's client, and the clock.
pub record GroupClient : Type 0 where
  pub get_group : GroupCalls → Key → Result LeaderGroup
  pub get_lease : GroupCalls → Key → Result Lease
  pub create_lease : GroupCalls → Lease → Result Lease
  pub update_lease : GroupCalls → Lease → Result Lease
  pub delete_lease : GroupCalls → Lease → Result (Unit {0})
  pub update_status : GroupCalls → LeaderGroup → Result (Unit {0})
  pub now : GroupCalls → ℕ

-- LeaderGroupReconciler has no state of its own: an action takes the calls made so far.
abbrev pub G : Type 0 → Type 0
G A = GroupCalls → A × GroupCalls

pub pure : {A : Type 0} → A → G A
pure a cs = (a, cs)

infixl 5 ◌>>=◌
-- Opening this opens `pure` too.
unfoldable pub ◌>>=◌ : {A B : Type 0} → G A → (A → G B) → G B
unfolding pure
◌>>=◌ action next cs = next (action cs).0 (action cs).1

module _ ⦃c : GroupClient⦄ where
  -- metav1.Now
  unfoldable pub now : G ℕ
  now cs = (c.now cs, read_time ∷ cs)

  unfoldable pub fetch_group : Key → G (Result LeaderGroup)
  fetch_group k cs = (c.get_group cs k, get_group k ∷ cs)

  unfoldable pub fetch_lease : Key → G (Result Lease)
  fetch_lease k cs = (c.get_lease cs k, get_lease k ∷ cs)

  unfoldable pub send_create_lease : Lease → G (Result Lease)
  send_create_lease x cs =
      let answer = c.create_lease cs x in (answer, create_lease x (is_ok answer) ∷ cs)

  unfoldable pub send_update_lease : Lease → G (Result Lease)
  send_update_lease x cs =
      let answer = c.update_lease cs x in (answer, update_lease x (is_ok answer) ∷ cs)

  unfoldable pub send_delete_lease : Lease → G (Result (Unit {0}))
  send_delete_lease x cs =
      let answer = c.delete_lease cs x in (answer, delete_lease x (is_ok answer) ∷ cs)

  unfoldable pub send_update_status : LeaderGroup → G (Result (Unit {0}))
  send_update_status g cs =
      let answer = c.update_status cs g in (answer, update_status g (is_ok answer) ∷ cs)
