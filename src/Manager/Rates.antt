-- ===== src/Manager/Rates.antt =====
-- The durations that main makes of its flags, beside those that the controller runs with.
use zen_lead.Base.{
  ℕ, zero, suc, ◌+◌, ◌*◌, ◌<◌, ◌%◌, ◌-◌, ◌≡◌, refl, false, ltb, if◌then◌else◌, arith,
}
use zen_lead.Base.Int.{ℤ, pos, negsuc, is_pos}
use zen_lead.Director.Reconciler.{Client, Libraries}
use zen_lead.Director.Constructor.{or_default, new_service_director_reconciler}
use zen_lead.Manager.{Flags, signed, times, second, millisecond, limits_of}

-- The time of so many units, where the number is positive, and the fallback elsewhere.
abbrev pub given : ℕ → ℕ → ℤ → ℤ
given unit fallback (pos n) = if ltb 0 n then pos (n * unit) else pos fallback
given unit fallback (negsuc n) = pos fallback

-- The size of an integer.
abbrev pub size : ℤ → ℕ
size (pos n) = n
size (negsuc n) = n + 1

mul_pos : (n unit : ℕ) → 0 < n → 0 < unit → 0 < n * unit
mul_pos n unit p q = grind arith

positive :
    (n unit fallback : ℕ)
    → 0 < unit
    → or_default (pos fallback) (pos (n * unit)) ≡ given unit fallback (pos n)
unfolding or_default
positive zero unit fallback u = ground arith
positive (suc n) unit fallback u =
    let p : 0 < suc n * unit = mul_pos (suc n) unit (omega arith) u in ground arith

not_positive : (fallback z : ℤ) → is_pos z ≡ false → or_default fallback z ≡ fallback
unfolding or_default
not_positive fallback z h = rw h refl

signed_pos : (m : ℕ) → m < 9223372036854775808 → signed (m % 18446744073709551616) ≡ pos m
unfolding signed
signed_pos m h = ground arith

signed_neg :
    (m : ℕ)
    → 0 < m
    → m < 9223372036854775808
    → is_pos (signed ((18446744073709551616 - m % 18446744073709551616) % 18446744073709551616))
      ≡ false
unfolding signed
signed_neg m p h = ground arith

or_default-times :
    (unit fallback : ℕ) (z : ℤ)
    → 0 < unit
    → size z * unit < 9223372036854775808
    → or_default (pos fallback) (times unit z) ≡ given unit fallback z
unfolding or_default times
or_default-times unit fallback (pos n) u h =
    rw (signed_pos (n * unit) h) (positive n unit fallback u)
or_default-times unit fallback (negsuc n) u h =
    not_positive (pos fallback) _
      (signed_neg ((n + 1) * unit) (mul_pos (n + 1) unit (omega arith) u) h)

-- The durations that the controller runs with are those of the flags, and the constructor's where a
-- flag is not positive. No duration is longer than int64 holds, about 292 years.
pub limits_of-durations :
    (client : Client) (libraries : Libraries) (f : Flags)
    → size f.cache_update_timeout_seconds * second < 9223372036854775808
    → size f.metrics_collection_timeout_seconds * second < 9223372036854775808
    → size f.fast_retry_initial_delay_ms * millisecond < 9223372036854775808
    → size f.fast_retry_max_delay_ms * millisecond < 9223372036854775808
    → size f.leader_pod_cache_ttl_seconds * second < 9223372036854775808
    → let r = new_service_director_reconciler client libraries (limits_of f) in
      (r.cache_update_timeout ≡ given second 10000000000 f.cache_update_timeout_seconds)
      × (r.metrics_collection_timeout
          ≡ given second 5000000000 f.metrics_collection_timeout_seconds)
      × (r.fast_retry_config.initial_delay
          ≡ given millisecond 20000000 f.fast_retry_initial_delay_ms)
      × (r.fast_retry_config.max_delay ≡ given millisecond 500000000 f.fast_retry_max_delay_ms)
      × (r.leader_pod_cache_ttl ≡ given second 30000000000 f.leader_pod_cache_ttl_seconds)
unfolding limits_of new_service_director_reconciler
limits_of-durations client libraries f a b c d e = (
  or_default-times second 10000000000 f.cache_update_timeout_seconds (omega arith) a,
  or_default-times second 5000000000 f.metrics_collection_timeout_seconds (omega arith) b,
  or_default-times millisecond 20000000 f.fast_retry_initial_delay_ms (omega arith) c,
  or_default-times millisecond 500000000 f.fast_retry_max_delay_ms (omega arith) d,
  or_default-times second 30000000000 f.leader_pod_cache_ttl_seconds (omega arith) e,
)
