-- ===== src/Fallback/Attempt.antt =====
-- src/routing/fallback.rs: an attempt, what its failure means, and how long to wait before the next.
use Prim.Native.Char.{code}
use rustygate.Prelude.{
  ℕ, ◌+◌, ◌-◌, ◌*◌, ◌/◌, ◌%◌, ◌^◌, min, max, String, Bool, Option, ltb, ◌==◌, if◌then◌else◌,
  saturating_add_u64, saturating_mul_u64, wrapping_add_u64, u64_max,
}
use rustygate.Errors.{
  ProviderError, timeout, rate_limited, authentication_failed, provider_unavailable,
  provider_bad_response,
}
use rustygate.Resilience.{RetryPolicy}

pub data RetryDecision : Type 0 where
  try_next_provider stop : RetryDecision

-- ProviderErrorCategory
pub data ErrorCategory : Type 0 where
  timed_out limited unauthenticated unavailable bad_response : ErrorCategory

-- ProviderErrorCategory::as_str
unfoldable pub category_name : ErrorCategory → String
category_name timed_out = "timeout"
category_name limited = "rate_limited"
category_name unauthenticated = "authentication_failed"
category_name unavailable = "provider_unavailable"
category_name bad_response = "provider_bad_response"

pub record ProviderAttempt : Type 0 where
  pub provider_name : String
  pub attempt_order : ℕ  -- u32
  pub latency_ms : ℕ  -- u64
  pub success : Bool
  pub is_fallback : Bool
  pub error_category : Option ErrorCategory

unfoldable pub fallback_decision : ProviderError → RetryDecision
fallback_decision timeout = try_next_provider
fallback_decision rate_limited = try_next_provider
fallback_decision provider_unavailable = try_next_provider
fallback_decision authentication_failed = stop
fallback_decision provider_bad_response = stop

unfoldable pub provider_error_category : ProviderError → ErrorCategory
provider_error_category timeout = timed_out
provider_error_category rate_limited = limited
provider_error_category authentication_failed = unauthenticated
provider_error_category provider_unavailable = unavailable
provider_error_category provider_bad_response = bad_response

-- The bytes of a code point in UTF-8, added up one after the other to `acc`.
unfoldable pub add_bytes : ℕ → ℕ → ℕ
add_bytes acc c =
    if ltb c 128
    then saturating_add_u64 acc c
    else if ltb c 2_048
    then saturating_add_u64 (saturating_add_u64 acc (192 + c / 64)) (128 + c % 64)
    else if ltb c 65_536
    then saturating_add_u64
        (saturating_add_u64 (saturating_add_u64 acc (224 + c / 4_096)) (128 + c / 64 % 64))
        (128 + c % 64)
    else saturating_add_u64
        (saturating_add_u64
          (saturating_add_u64 (saturating_add_u64 acc (240 + c / 262_144)) (128 + c / 4_096 % 64))
          (128 + c / 64 % 64))
        (128 + c % 64)

-- The fold over `provider_name.bytes()`.
unfoldable pub byte_sum : ℕ → String → ℕ
unfolding add_bytes
byte_sum acc String.[] = acc
byte_sum acc (String.◌∷◌ c s) = byte_sum (add_bytes acc (code c)) s

-- `jitter_ms + 1` wraps to 0 for the greatest `u64`, and the remainder by 0 ends in a panic (in a debug
-- build the sum does); the number computed here for that input stands for no result of the code.
unfoldable pub deterministic_jitter_ms : String → ℕ → ℕ → ℕ
unfolding byte_sum
deterministic_jitter_ms provider_name retry_attempt jitter_ms =
    if jitter_ms == 0
    then 0
    else saturating_add_u64 (byte_sum 0 provider_name) (retry_attempt * 17)
      % wrapping_add_u64 jitter_ms 1

-- The wait in milliseconds.
unfoldable pub retry_backoff : RetryPolicy → ℕ → String → ℕ
unfolding deterministic_jitter_ms
retry_backoff policy retry_attempt provider_name =
    let base =
      saturating_mul_u64 policy.initial_backoff_ms (min (2 ^ (retry_attempt - 1)) u64_max) in
    let capped = min base (max policy.max_backoff_ms policy.initial_backoff_ms) in
    saturating_add_u64 capped (deterministic_jitter_ms provider_name retry_attempt policy.jitter_ms)
