-- ===== src/Tests/Keyed.antt =====
-- The cluster of the tests with slices that are kept by namespace and name.
use zen_lead.Base.{
  ℕ, ◌≡◌, refl, true, Bool, ◌&&◌, Option, some, [], ◌∷◌, arith, eq_iff, Bool-cases, inl, inr,
}
use zen_lead.Kube.Objects.{Key, EndpointSlice}
use zen_lead.Kube.Errors.{ok}
use zen_lead.Director.Reconciler.{Call, create_slice, patch_slice, delete_slice, Calls, Reconciler}
use zen_lead.Director.Retry.Laws.{RetryLaws}
use zen_lead.Director.EndpointSlices.Keyed.{at_key, after_call_at, slice_at, IsAt, ReadsByKey}
use zen_lead.Director.Reconcile.Stays.{ReadsBack}
use zen_lead.Tests.Retry.{do_retry-Runs}
use zen_lead.Tests.Cluster.{found, web, tester}

abbrev pub keyed : Reconciler
keyed = record tester {
  client = record tester.client { get_slice = λ cs k. found (slice_at k cs) };
}

pub keyed_laws : RetryLaws keyed
keyed_laws = record { runs = do_retry-Runs }

written_there :
    (k : Key) (x y : EndpointSlice) (accepted : Bool)
    → (accepted && at_key k y) ≡ true
    → y ≡ x
    → IsAt k x
written_there k x y accepted e same = record {
  same_namespace = ground (arith, e, same, eq_iff y.namespace k.namespace);
  same_name = ground (arith, e, same, eq_iff y.name k.name);
}

after_call_at-IsAt :
    (k : Key) (x : EndpointSlice) (c : Call) (before : Option EndpointSlice)
    → (before ≡ some x → IsAt k x)
    → after_call_at k c before ≡ some x
    → IsAt k x
after_call_at-IsAt k x (create_slice y b) before ih h = elim (Bool-cases (b && at_key k y)) [
  | inl e ↦ written_there k x y b e (ground (arith, e, h))
  | inr e ↦ ih (ground (arith, e, h))
]
after_call_at-IsAt k x (patch_slice old y b) before ih h = elim (Bool-cases (b && at_key k y)) [
  | inl e ↦ written_there k x y b e (ground (arith, e, h))
  | inr e ↦ ih (ground (arith, e, h))
]
after_call_at-IsAt k x (delete_slice y b) before ih h = elim (Bool-cases (b && at_key k y)) [
  | inl e ↦ absurd (ground (arith, e, h))
  | inr e ↦ ih (ground (arith, e, h))
]
after_call_at-IsAt k x c before ih h = ih h

slice_at-IsAt : (k : Key) (x : EndpointSlice) (cs : Calls) → slice_at k cs ≡ some x → IsAt k x
slice_at-IsAt k x [] h = absurd (ground (arith, h))
slice_at-IsAt k x (c ∷ cs) h = after_call_at-IsAt k x c (slice_at k cs) (slice_at-IsAt k x cs) h

found_some : (o : Option EndpointSlice) (x : EndpointSlice) → found o ≡ ok x → o ≡ some x
found_some o x h = ground (arith, h)

pub keyed_by_key : (k : Key) → ReadsByKey ⦃r = keyed⦄ k
keyed_by_key k cs x h = slice_at-IsAt k x cs (found_some (slice_at k cs) x h)

pub keyed_back : (n : ℕ) → ReadsBack ⦃r = keyed⦄ web n
keyed_back n cs x late h = rw h refl
