-- ===== src/Fallback/Backoff.antt =====
-- src/routing/fallback.rs: how long a retry waits.
use native.Mathlib.Nat.{mod-lt, pow-suc, le-mul_of_pos_right}
use rustygate.Prelude.{zero, suc, ℕ, ◌+◌, ◌-◌, ◌*◌, ◌^◌, ◌≤◌, ◌<◌, min, max, String, arith, u64_max}
use rustygate.Resilience.{RetryPolicy}
use rustygate.Fallback.Attempt.{retry_backoff, deterministic_jitter_ms, byte_sum}

jitter-le :
    (name : String) (retry_attempt jitter_ms : ℕ)
    → jitter_ms < u64_max
    → deterministic_jitter_ms name retry_attempt jitter_ms ≤ jitter_ms
unfolding deterministic_jitter_ms
jitter-le name retry_attempt jitter_ms below = ground (
  arith,
  mod-lt (min (byte_sum 0 name + retry_attempt * 17) u64_max) {m = jitter_ms + 1} (omega arith),
)

pow-pos : (n : ℕ) → 1 ≤ 2 ^ n
pow-pos zero = omega arith
pow-pos (suc n) = rw (pow-suc 2 n) (omega (arith, pow-pos n))

-- A wait is at least the initial back-off (a `u64`) and at most the greater of the two configured
-- back-offs plus the jitter, whatever the number of the retry. The jitter is not the greatest `u64`, for
-- which the code panics.
pub retry_backoff-bounds :
    (policy : RetryPolicy) (retry_attempt : ℕ) (name : String)
    → policy.initial_backoff_ms ≤ u64_max
    → policy.jitter_ms < u64_max
    → (policy.initial_backoff_ms ≤ retry_backoff policy retry_attempt name)
      × (retry_backoff policy retry_attempt name
          ≤ max policy.max_backoff_ms policy.initial_backoff_ms + policy.jitter_ms)
unfolding retry_backoff
retry_backoff-bounds policy retry_attempt name h below =
    let p = 2 ^ (retry_attempt - 1) in
    let grows =
      le-mul_of_pos_right {m = min p u64_max} policy.initial_backoff_ms
        (omega (arith, pow-pos (retry_attempt - 1))) in
    let jitter = jitter-le name retry_attempt policy.jitter_ms below in
    (omega (arith, grows), omega (arith, jitter))
