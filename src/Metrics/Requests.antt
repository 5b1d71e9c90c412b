-- ===== src/Metrics/Requests.antt =====
-- src/telemetry/metrics.rs: what the registry counts of chat requests, cache lookups and streams.
use rustygate.Prelude.Dict
use rustygate.Prelude.Dict.{Dict}
use rustygate.Prelude.{
  ℕ, ◌+◌, ◌-◌, ◌/◌, ◌%◌, String, Bool, false, Option, none, some, List, [], ◌∷◌, if◌then◌else◌,
  wrapping_add_u64, saturating_add_u64,
}
use rustygate.Float.{Float}
use rustygate.Chat.{TokenUsage}
use rustygate.Provider.{CostEstimate}
use rustygate.Fallback.Attempt.{ProviderAttempt, ErrorCategory, category_name}
use rustygate.Metrics.{MetricsRegistry, add_to, push_sample}

abbrev pub wrapping_add_u128 : ℕ → ℕ → ℕ
wrapping_add_u128 a b = (a + b) % 340_282_366_920_938_463_463_374_607_431_768_211_456

unfoldable pub add_to_u128 : Dict ℕ → String → ℕ → Dict ℕ
add_to_u128 m key amount = Dict.insert key (wrapping_add_u128 (Dict.get_or m key 0) amount) m

-- A sample of a provider, in its own bounded list.
unfoldable pub push_sample_of : {A : Type 0} → Dict (List A) → String → A → Dict (List A)
unfolding push_sample
push_sample_of m key x = Dict.insert key (push_sample (Dict.get_or m key []) x) m

-- One more in the inner map of a key
unfoldable pub add_to_inner : Dict (Dict ℕ) → String → String → Dict (Dict ℕ)
unfolding add_to
add_to_inner m outer inner = Dict.insert outer (add_to (Dict.get_or m outer []) inner 1) m

unfoldable pub count_category : Dict ℕ → Option String → Dict ℕ
unfolding add_to
count_category m none = m
count_category m (some category) = add_to m category 1

module _ {F : Type 0} where
  unfoldable pub begin_request : MetricsRegistry F → MetricsRegistry F
  begin_request m = record m { in_flight_requests = saturating_add_u64 m.in_flight_requests 1 }

  unfoldable pub end_request : MetricsRegistry F → MetricsRegistry F
  end_request m = record m { in_flight_requests = m.in_flight_requests - 1 }

  unfoldable pub record_cache_lookup : MetricsRegistry F → String → MetricsRegistry F
  unfolding add_to
  record_cache_lookup m outcome = record m {
    cache_lookups_by_outcome = add_to m.cache_lookups_by_outcome outcome 1;
  }

  unfoldable pub record_stream_outcome : MetricsRegistry F → String → ℕ → MetricsRegistry F
  unfolding add_to push_sample
  record_stream_outcome m outcome duration_ms = record m {
    stream_outcomes_by_outcome = add_to m.stream_outcomes_by_outcome outcome 1;
    stream_duration_samples_ms = push_sample m.stream_duration_samples_ms duration_ms;
  }

  unfoldable pub record_latency_sample : MetricsRegistry F → ℕ → MetricsRegistry F
  unfolding push_sample
  record_latency_sample m latency_ms = record m {
    latency_samples_ms = push_sample m.latency_samples_ms latency_ms;
  }

  unfoldable pub record_provider_latency_sample : MetricsRegistry F → String → ℕ → MetricsRegistry F
  unfolding push_sample_of
  record_provider_latency_sample m provider_name latency_ms = record m {
    provider_latency_samples_ms =
        push_sample_of m.provider_latency_samples_ms provider_name latency_ms;
  }

  unfoldable pub record_provider_error_sample :
      MetricsRegistry F → String → String → MetricsRegistry F
  unfolding push_sample_of
  record_provider_error_sample m provider_name error_category = record m {
    provider_error_samples = push_sample_of m.provider_error_samples provider_name error_category;
  }

  -- The failed attempt's category, where it has one.
  unfoldable pub record_error_category :
      MetricsRegistry F → String → Option ErrorCategory → MetricsRegistry F
  unfolding record_provider_error_sample category_name add_to_inner
  record_error_category m provider_name none = m
  record_error_category m provider_name (some category) =
      let m' = record_provider_error_sample m provider_name (category_name category) in
      record m' {
        provider_errors_by_provider_and_category =
            add_to_inner m'.provider_errors_by_provider_and_category provider_name
              (category_name category);
      }

  unfoldable pub record_attempt_outcome : MetricsRegistry F → ProviderAttempt → MetricsRegistry F
  unfolding add_to record_error_category
  record_attempt_outcome m attempt =
      let failed = record m {
        errors_by_provider = add_to m.errors_by_provider attempt.provider_name 1;
      } in
      if attempt.success
      then record m {
        successes_by_provider = add_to m.successes_by_provider attempt.provider_name 1;
      }
      else record_error_category failed attempt.provider_name attempt.error_category

  unfoldable pub record_fallback : MetricsRegistry F → ProviderAttempt → MetricsRegistry F
  unfolding add_to
  record_fallback m attempt =
      if attempt.is_fallback
      then record m {
        fallback_attempts = wrapping_add_u64 m.fallback_attempts 1;
        fallback_attempts_by_provider =
            add_to m.fallback_attempts_by_provider attempt.provider_name 1;
      }
      else m

  unfoldable pub count_attempt : MetricsRegistry F → ProviderAttempt → MetricsRegistry F
  unfolding add_to add_to_u128
  count_attempt m attempt = record m {
    total_provider_attempts = wrapping_add_u64 m.total_provider_attempts 1;
    requests_by_provider = add_to m.requests_by_provider attempt.provider_name 1;
    provider_total_latency_ms =
        add_to_u128 m.provider_total_latency_ms attempt.provider_name attempt.latency_ms;
  }

  -- The body of the loop over the attempts.
  unfoldable pub record_attempt : MetricsRegistry F → ProviderAttempt → MetricsRegistry F
  unfolding count_attempt record_provider_latency_sample record_attempt_outcome record_fallback
  record_attempt m attempt =
      let timed =
        record_provider_latency_sample (count_attempt m attempt) attempt.provider_name
          attempt.latency_ms in
      record_fallback (record_attempt_outcome timed attempt) attempt

  unfoldable pub record_provider_attempts :
      MetricsRegistry F → List ProviderAttempt → MetricsRegistry F
  unfolding record_attempt
  record_provider_attempts m [] = m
  record_provider_attempts m (attempt ∷ attempts) =
      record_provider_attempts (record_attempt m attempt) attempts

  unfoldable pub count_failure : MetricsRegistry F → ℕ → Option String → MetricsRegistry F
  unfolding count_category
  count_failure m latency_ms error_category = record m {
    total_requests = wrapping_add_u64 m.total_requests 1;
    failed_requests = wrapping_add_u64 m.failed_requests 1;
    request_errors_by_category = count_category m.request_errors_by_category error_category;
    total_latency_ms = wrapping_add_u128 m.total_latency_ms latency_ms;
  }

  unfoldable pub record_chat_failure_with_category :
      MetricsRegistry F → ℕ → List ProviderAttempt → Option String → MetricsRegistry F
  unfolding record_latency_sample record_provider_attempts count_failure
  record_chat_failure_with_category m latency_ms attempts error_category =
      record_provider_attempts
        (record_latency_sample (count_failure m latency_ms error_category) latency_ms) attempts

  unfoldable pub record_chat_failure :
      MetricsRegistry F → ℕ → List ProviderAttempt → MetricsRegistry F
  unfolding record_chat_failure_with_category
  record_chat_failure m latency_ms attempts =
      record_chat_failure_with_category m latency_ms attempts none

module _ (fl : Float) where
  unfoldable pub count_success :
      MetricsRegistry fl.F64 → TokenUsage → CostEstimate fl → ℕ → MetricsRegistry fl.F64
  count_success m usage cost_estimate latency_ms = record m {
    total_requests = wrapping_add_u64 m.total_requests 1;
    successful_requests = wrapping_add_u64 m.successful_requests 1;
    estimated_prompt_tokens = wrapping_add_u64 m.estimated_prompt_tokens usage.prompt_tokens;
    estimated_completion_tokens =
        wrapping_add_u64 m.estimated_completion_tokens usage.completion_tokens;
    estimated_total_tokens = wrapping_add_u64 m.estimated_total_tokens usage.total_tokens;
    estimated_input_cost_usd = fl.add m.estimated_input_cost_usd cost_estimate.input_cost_usd;
    estimated_output_cost_usd = fl.add m.estimated_output_cost_usd cost_estimate.output_cost_usd;
    estimated_total_cost_usd = fl.add m.estimated_total_cost_usd cost_estimate.total_cost_usd;
    total_latency_ms = wrapping_add_u128 m.total_latency_ms latency_ms;
  }

  unfoldable pub record_chat_success :
      MetricsRegistry fl.F64
      → TokenUsage
      → CostEstimate fl
      → ℕ
      → List ProviderAttempt
      → MetricsRegistry fl.F64
  unfolding record_latency_sample record_provider_attempts count_success
  record_chat_success m usage cost_estimate latency_ms attempts =
      record_provider_attempts
        (record_latency_sample (count_success m usage cost_estimate latency_ms) latency_ms) attempts

pub data StreamOutcome : Type 0 where
  completed mid_stream_failure idle_timeout incomplete cancelled : StreamOutcome

-- StreamOutcome::as_str
unfoldable pub outcome_name : StreamOutcome → String
outcome_name completed = "completed"
outcome_name mid_stream_failure = "mid_stream_failure"
outcome_name idle_timeout = "idle_timeout"
outcome_name incomplete = "incomplete"
outcome_name cancelled = "cancelled"

pub record StreamMetricsGuard : Type 0 where
  pub started : ℕ  -- an Instant, in nanoseconds
  pub active : Bool

-- StreamMetricsGuard::finish; `drop` calls it with `cancelled`.
unfoldable pub finish_stream :
    {F : Type 0}
    → MetricsRegistry F
    → StreamMetricsGuard
    → StreamOutcome
    → ℕ
    → MetricsRegistry F × StreamMetricsGuard
unfolding record_stream_outcome outcome_name
finish_stream m g outcome now =
    if g.active
    then (
      record_stream_outcome m (outcome_name outcome)
          ((now - g.started) / 1_000_000 % 18_446_744_073_709_551_616),
      record g { active = false },
    )
    else (m, g)
