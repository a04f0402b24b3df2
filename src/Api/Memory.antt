-- ===== src/Api/Memory.antt =====
-- Go's memory, as far as the objects of pkg/apis need it: typed cells at addresses, of which those
-- below `next` are in use. Go's types are safe, so that a pointer to a T finds a T: there is a cell of
-- each sort at each address. A fresh cell is made with its content.
use zen_lead.Base.{
  ℕ, ◌+◌, ◌<◌, ◌≤◌, ◌≡◌, refl, String, Bool, true, false, Option, List, arith, ◌==◌, if◌then◌else◌,
}
use zen_lead.Base.Int.{ℤ}

-- The types of apimachinery that the objects hold. `TimePointer` is *metav1.Time, and `Hidden` is
-- what values of these types point to.
pub record Foreign : Type 1 where
  pub ObjectMeta : Type 0
  pub ListMeta : Type 0
  pub LabelSelector : Type 0
  pub Condition : Type 0
  pub TimePointer : Type 0
  pub Hidden : Type 0

abbrev pub Address : Type 0
Address = ℕ

abbrev pub Pointer : Type 0
Pointer = Option Address

pub record TypeMeta : Type 0 where
  pub kind : String
  pub api_version : String

pub record LeaseSettings : Type 0 where
  pub duration : Pointer
  pub renew_deadline : Pointer
  pub retry_period : Pointer

pub record RoutingSettings : Type 0 where
  pub enabled : Bool

pub record LeaderGroupSpec : Type 0 where
  pub group_type : String
  pub selector : Pointer
  pub component : String
  pub lease : Pointer
  pub routing : Pointer

module _ ⦃f : Foreign⦄ where
  -- `conditions` points to the array of the slice.
  pub record LeaderGroupStatus : Type 0 where
    pub holder_identity : String
    pub renew_time : Option f.TimePointer
    pub lease_duration_seconds : Pointer
    pub fencing_token : Pointer
    pub observed_lease_resource_version : String
    pub conditions : Pointer

  pub record LeaderGroup : Type 0 where
    pub type_meta : TypeMeta
    pub object_meta : f.ObjectMeta
    pub spec : LeaderGroupSpec
    pub status : LeaderGroupStatus

  pub record LeaderGroupList : Type 0 where
    pub type_meta : TypeMeta
    pub list_meta : f.ListMeta
    pub items : Pointer

-- The sorts of cells.
pub data Sort : Type 0 where
  duration int32 int64 selector lease_settings routing_settings conditions : Sort
  group_spec group_status group group_list groups hidden : Sort

module _ ⦃f : Foreign⦄ where
  abbrev pub Content : Sort → Type 0
  Content duration = ℤ
  Content int32 = ℤ
  Content int64 = ℤ
  Content selector = f.LabelSelector
  Content lease_settings = LeaseSettings
  Content routing_settings = RoutingSettings
  Content conditions = List f.Condition
  Content group_spec = LeaderGroupSpec
  Content group_status = LeaderGroupStatus
  Content group = LeaderGroup
  Content group_list = LeaderGroupList
  Content groups = List LeaderGroup
  Content hidden = f.Hidden

  pub record Heap : Type 0 where
    pub next : Address
    pub cell : (k : Sort) → Address → Content k

  abbrev pub M : Type 0 → Type 0
  M A = Heap → A × Heap

  unfoldable pub pure : {A : Type 0} → A → M A
  pure a h = (a, h)

  infixl 5 ◌>>=◌
  unfoldable pub ◌>>=◌ : {A B : Type 0} → M A → (A → M B) → M B
  unfolding pure
  ◌>>=◌ m k h = let (a, h') = m h in k a h'

  -- The content of sort `k` where the two sorts are the same, and what was there elsewhere.
  pub over : (k j : Sort) → Content k → Content j → Content j
  over duration duration x y = x
  over int32 int32 x y = x
  over int64 int64 x y = x
  over selector selector x y = x
  over lease_settings lease_settings x y = x
  over routing_settings routing_settings x y = x
  over conditions conditions x y = x
  over group_spec group_spec x y = x
  over group_status group_status x y = x
  over group group x y = x
  over group_list group_list x y = x
  over groups groups x y = x
  over hidden hidden x y = x
  over k j x y = y

  -- `*p`
  unfoldable pub load : (k : Sort) → Address → M (Content k)
  load k p h = (h.cell k p, h)

  -- `new`, or `make`, with what is then put there
  unfoldable pub alloc : (k : Sort) → Content k → M Address
  alloc k x h = (
    h.next,
    record {
      next = h.next + 1;
      cell = λ j a. if a == h.next then over k j x (h.cell j a) else h.cell j a;
    },
  )

  over_same : (k : Sort) (x y : Content k) → over k k x y ≡ x
  unfolding over
  over_same duration x y = refl
  over_same int32 x y = refl
  over_same int64 x y = refl
  over_same selector x y = refl
  over_same lease_settings x y = refl
  over_same routing_settings x y = refl
  over_same conditions x y = refl
  over_same group_spec x y = refl
  over_same group_status x y = refl
  over_same group x y = refl
  over_same group_list x y = refl
  over_same groups x y = refl
  over_same hidden x y = refl

  -- The cells from `lo` up to `hi` are the same.
  abbrev pub Same : Address → Address → Heap → Heap → Type 0
  Same lo hi g h = (k : Sort) (a : Address) → lo ≤ a → a < hi → g.cell k a ≡ h.cell k a

  pub load-alloc :
      (k : Sort) (x : Content k) (h : Heap) → (alloc k x h).1.cell k (alloc k x h).0 ≡ x
  unfolding alloc
  load-alloc k x h = rw (eq_self h.next) (over_same k x (h.cell k h.next))
    where
      eq_self : (n : ℕ) → (n == n) ≡ true
      eq_self n = ground arith

  pub alloc-Same : (k : Sort) (x : Content k) (h : Heap) → Same 0 h.next (alloc k x h).1 h
  unfolding alloc
  alloc-Same k x h j a lo hi = rw (ne_of_lt a h.next hi) refl
    where
      ne_of_lt : (a n : ℕ) → a < n → (a == n) ≡ false
      ne_of_lt a n p = ground arith

  pub next-alloc :
      (k : Sort) (x : Content k) (h : Heap)
      → ((alloc k x h).1.next ≡ h.next + 1) × ((alloc k x h).0 ≡ h.next)
  unfolding alloc
  next-alloc k x h = (refl, refl)
