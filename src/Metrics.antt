-- ===== src/Metrics.antt =====
-- src/telemetry/metrics.rs: the registry and the counters that routing keeps. `F` is `f64`. A call is
-- one step under the mutex, and its poisoning is not modelled.
pub mod Tests
pub mod InFlight
pub mod Requests
pub mod Snapshot
pub mod Percentile
pub mod Tally
pub mod Attempts
pub mod Consistent
use rustygate.Prelude.Dict
use rustygate.Prelude.Dict.{Dict}
use rustygate.Prelude.{
  ℕ, ◌+◌, ◌-◌, ◌/◌, String, Bool, true, false, Option, none, some, List, [], ◌∷◌, ◌++◌, ◌==◌,
  if◌then◌else◌, length, unwrap_or, saturating_add_u32, wrapping_add_u64,
}

pub record ProviderLoadEstimate : Type 0 where
  pub prompt_tokens : ℕ  -- u32
  pub max_completion_tokens : Option ℕ  -- u32

unfoldable pub queue_pressure_units : ProviderLoadEstimate → ℕ
queue_pressure_units l =
    let estimated_tokens =
      saturating_add_u32 l.prompt_tokens (unwrap_or l.max_completion_tokens 0) in
    1 + (estimated_tokens + 1_023) / 1_024

pub record MetricsRegistry (F : Type 0) : Type 0 where
  pub total_requests : ℕ
  pub successful_requests : ℕ
  pub failed_requests : ℕ
  pub in_flight_requests : ℕ
  pub total_provider_attempts : ℕ
  pub fallback_attempts : ℕ
  pub estimated_prompt_tokens : ℕ
  pub estimated_completion_tokens : ℕ
  pub estimated_total_tokens : ℕ
  pub estimated_input_cost_usd : F
  pub estimated_output_cost_usd : F
  pub estimated_total_cost_usd : F
  pub requests_by_provider : Dict ℕ
  pub successes_by_provider : Dict ℕ
  pub errors_by_provider : Dict ℕ
  pub fallback_attempts_by_provider : Dict ℕ
  pub request_errors_by_category : Dict ℕ
  pub provider_errors_by_provider_and_category : Dict (Dict ℕ)
  pub provider_error_samples : Dict (List String)
  pub admission_rejections_by_reason : Dict ℕ
  pub provider_latency_samples_ms : Dict (List ℕ)
  pub provider_ttft_samples_ms : Dict (List ℕ)
  pub provider_total_latency_ms : Dict ℕ  -- u128
  pub in_flight_requests_by_provider : Dict ℕ
  pub provider_queue_pressure_units : Dict ℕ
  pub routing_decisions_by_policy_and_reason : Dict (Dict ℕ)
  pub prefix_fingerprints_by_outcome : Dict ℕ
  pub latency_samples_ms : List ℕ
  pub total_latency_ms : ℕ  -- u128
  pub cache_lookups_by_outcome : Dict ℕ
  pub stream_outcomes_by_outcome : Dict ℕ
  pub stream_duration_samples_ms : List ℕ

-- MetricsRegistry::default
abbrev pub no_metrics : {F : Type 0} → F → MetricsRegistry F
no_metrics zero_f64 = record {
  total_requests = 0;
  successful_requests = 0;
  failed_requests = 0;
  in_flight_requests = 0;
  total_provider_attempts = 0;
  fallback_attempts = 0;
  estimated_prompt_tokens = 0;
  estimated_completion_tokens = 0;
  estimated_total_tokens = 0;
  estimated_input_cost_usd = zero_f64;
  estimated_output_cost_usd = zero_f64;
  estimated_total_cost_usd = zero_f64;
  requests_by_provider = [];
  successes_by_provider = [];
  errors_by_provider = [];
  fallback_attempts_by_provider = [];
  request_errors_by_category = [];
  provider_errors_by_provider_and_category = [];
  provider_error_samples = [];
  admission_rejections_by_reason = [];
  provider_latency_samples_ms = [];
  provider_ttft_samples_ms = [];
  provider_total_latency_ms = [];
  in_flight_requests_by_provider = [];
  provider_queue_pressure_units = [];
  routing_decisions_by_policy_and_reason = [];
  prefix_fingerprints_by_outcome = [];
  latency_samples_ms = [];
  total_latency_ms = 0;
  cache_lookups_by_outcome = [];
  stream_outcomes_by_outcome = [];
  stream_duration_samples_ms = [];
}

-- `*map.entry(key).or_default() += amount`
unfoldable pub add_to : Dict ℕ → String → ℕ → Dict ℕ
add_to m key amount = Dict.insert key (wrapping_add_u64 (Dict.get_or m key 0) amount) m

unfoldable pub decrement_or_remove : Dict ℕ → String → ℕ → Dict ℕ
decrement_or_remove m key amount = elim (Dict.get m key) [
  | none ↦ m
  | some value ↦
      if value - amount == 0 then Dict.remove key m else Dict.insert key (value - amount) m
]

unfoldable pub begin_provider_request :
    {F : Type 0} → MetricsRegistry F → String → ℕ → MetricsRegistry F
begin_provider_request m provider_name units = record m {
  in_flight_requests_by_provider = add_to m.in_flight_requests_by_provider provider_name 1;
  provider_queue_pressure_units = add_to m.provider_queue_pressure_units provider_name units;
}

unfoldable pub end_provider_request :
    {F : Type 0} → MetricsRegistry F → String → ℕ → MetricsRegistry F
end_provider_request m provider_name units = record m {
  in_flight_requests_by_provider =
      decrement_or_remove m.in_flight_requests_by_provider provider_name 1;
  provider_queue_pressure_units =
      decrement_or_remove m.provider_queue_pressure_units provider_name units;
}

-- `if samples.len() == MAX_LATENCY_SAMPLES { samples.remove(0); } samples.push(x)`
abbrev drop_first : {A : Type 0} → List A → List A
drop_first [] = []
drop_first (x ∷ xs) = xs

unfoldable pub push_sample : {A : Type 0} → List A → A → List A
push_sample samples x = (if length samples == 1_024 then drop_first samples else samples) ++ x ∷ []

unfoldable pub record_provider_ttft :
    {F : Type 0} → MetricsRegistry F → String → ℕ → MetricsRegistry F
unfolding push_sample
record_provider_ttft m provider_name ttft_ms = record m {
  provider_ttft_samples_ms =
      Dict.insert provider_name
        (push_sample (Dict.get_or m.provider_ttft_samples_ms provider_name []) ttft_ms)
        m.provider_ttft_samples_ms;
}

unfoldable pub record_routing_decision :
    {F : Type 0} → MetricsRegistry F → String → String → MetricsRegistry F
record_routing_decision m policy reason = record m {
  routing_decisions_by_policy_and_reason =
      Dict.insert policy
        (add_to (Dict.get_or m.routing_decisions_by_policy_and_reason policy []) reason 1)
        m.routing_decisions_by_policy_and_reason;
}

unfoldable pub record_prefix_fingerprint :
    {F : Type 0} → MetricsRegistry F → String → MetricsRegistry F
record_prefix_fingerprint m outcome = record m {
  prefix_fingerprints_by_outcome = add_to m.prefix_fingerprints_by_outcome outcome 1;
}

unfoldable pub record_admission_rejection :
    {F : Type 0} → MetricsRegistry F → String → MetricsRegistry F
record_admission_rejection m reason = record m {
  admission_rejections_by_reason = add_to m.admission_rejections_by_reason reason 1;
}

pub record ProviderInFlightGuard : Type 0 where
  pub provider_name : String
  pub units : ℕ  -- queue_pressure_units
  pub active : Bool

-- ProviderInFlightGuard::new
unfoldable pub guard :
    {F : Type 0}
    → MetricsRegistry F
    → String
    → ProviderLoadEstimate
    → MetricsRegistry F × ProviderInFlightGuard
guard m provider_name load_estimate =
    let units = queue_pressure_units load_estimate in
    (
      begin_provider_request m provider_name units,
      record { provider_name = provider_name; units = units; active = true },
    )

-- `finish`, which `drop` calls too.
unfoldable pub finish :
    {F : Type 0}
    → MetricsRegistry F
    → ProviderInFlightGuard
    → MetricsRegistry F × ProviderInFlightGuard
finish m g =
    if g.active
    then (end_provider_request m g.provider_name g.units, record g { active = false })
    else (m, g)
