-- ===== src/Director/EndpointSlices/Keyed.antt =====
-- The slice of one namespace and name that the calls have left in the cluster.
use zen_lead.Base.{
  ◌≡◌, refl, Bool, true, false, ◌&&◌, Option, none, some, [], ◌∷◌, arith, str_eq, eq_refl,
  if◌then◌else◌,
}
use zen_lead.Kube.Objects.{Key, EndpointSlice}
use zen_lead.Kube.Errors.{ok}
use zen_lead.Director.Reconciler.{Call, create_slice, patch_slice, delete_slice, Calls, Reconciler}
use zen_lead.Director.Keeps.{is_write, Stable}
use zen_lead.Director.Sections.{Terms}

abbrev pub at_key : Key → EndpointSlice → Bool
at_key k x = str_eq x.namespace k.namespace && str_eq x.name k.name

-- The slice after a call, given what it was before: a rejected call, and one on a slice of another
-- namespace or name, changes nothing.
abbrev pub after_call_at : Key → Call → Option EndpointSlice → Option EndpointSlice
after_call_at k (create_slice x accepted) before = if accepted && at_key k x then some x else before
after_call_at k (patch_slice old x accepted) before =
    if accepted && at_key k x then some x else before
after_call_at k (delete_slice x accepted) before = if accepted && at_key k x then none else before
after_call_at k _ before = before

-- What was last created or patched under the key, and nothing after a deletion.
abbrev pub slice_at : Key → Calls → Option EndpointSlice
slice_at k [] = none
slice_at k (c ∷ cs) = after_call_at k c (slice_at k cs)

-- The slice has this namespace and name.
pub record IsAt (k : Key) (x : EndpointSlice) : Type 0 where
  pub same_namespace : x.namespace ≡ k.namespace
  pub same_name : x.name ≡ k.name

-- What the server answers for a key has its namespace and name.
abbrev pub ReadsByKey : ⦃r : Reconciler⦄ → Key → Type 0
ReadsByKey ⦃r⦄ k = (cs : Calls) (x : EndpointSlice) → r.client.get_slice cs k ≡ ok x → IsAt k x

pub at_key-IsAt : (k : Key) (x : EndpointSlice) → IsAt k x → at_key k x ≡ true
at_key-IsAt k x h = rw (h.same_namespace, h.same_name, eq_refl k.namespace, eq_refl k.name) refl

pub after_quiet_at :
    (k : Key) (c : Call)
    → is_write c ≡ false
    → (before : Option EndpointSlice) → after_call_at k c before ≡ before
after_quiet_at k c h before = ground arith

pub slice_at-Stable : (k : Key) (x : EndpointSlice) → Stable (λ cs. slice_at k cs ≡ some x)
slice_at-Stable k x c cs h e = rw (after_quiet_at k c h (slice_at k cs)) e

-- Calls that leave the slice of the key as it is, whatever it is: reads, writes of services, and
-- writes of other slices.
abbrev pub elsewhere : ⦃r : Reconciler⦄ → Key → Terms
elsewhere k = record {
  Allowed = λ c. (before : Option EndpointSlice) → after_call_at k c before ≡ before;
  Listing = λ services. Unit {0};
  quiet = after_quiet_at k;
  listed = λ cs ns services e. tt;
}

pub slice_at-elsewhere :
    ⦃r : Reconciler⦄ (k : Key) (x : EndpointSlice) (c : Call) (cs : Calls)
    → (elsewhere k).Allowed c
    → slice_at k cs ≡ some x
    → slice_at k (c ∷ cs) ≡ some x
slice_at-elsewhere k x c cs h e = rw (h (slice_at k cs)) e
