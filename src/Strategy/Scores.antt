-- ===== src/Strategy/Scores.antt =====
-- src/routing/strategy.rs: what a provider costs, how slow it answers and how loaded it is.
-- A metrics snapshot is the part of src/telemetry/metrics.rs's record that routing reads.
use rustygate.Prelude.Dict
use rustygate.Prelude.Dict.{Dict}
use rustygate.Prelude.{
  ℕ, max, min, String, Bool, true, false, Option, none, some, List, [], ◌∷◌, ltb, leb, ◌&&◌,
  if◌then◌else◌, unwrap_or, is_some_and, wrapping_add_u64, saturating_add_u64, saturating_mul_u64,
}
use rustygate.Float.{Float}
use rustygate.Config.{RoutingPolicy, priority, cost, latency, prefix_affinity}
use rustygate.Provider.{ProviderEntry}
use rustygate.Resilience.Breaker.{CircuitState, closed, opened, half_open}
use rustygate.Resilience.{ResilienceRegistry, circuit_state}

-- `values().sum()` in u64
unfoldable pub sum_counts : Dict ℕ → ℕ
sum_counts [] = 0
sum_counts ((_, n) ∷ rest) = wrapping_add_u64 n (sum_counts rest)

abbrev pub is_opened : CircuitState → Bool
is_opened closed = false
is_opened opened = true
is_opened half_open = false

module _ (fl : Float) where
  open fl use {F64, zero_f64, infinity, add, mul, from_nat, ceil_u64, lt_f64}

  pub record MetricsSnapshot : Type 0 where
    pub p95_latency_ms_by_provider : Dict F64
    pub avg_latency_ms_by_provider : Dict F64
    pub in_flight_requests_by_provider : Dict ℕ
    pub queue_pressure_by_provider : Dict F64
    pub recent_provider_errors_by_provider_and_category : Dict (Dict ℕ)

  abbrev pub name_of : ProviderEntry fl → String
  name_of entry = entry.provider.name

  unfoldable pub provider_cost : ProviderEntry fl → F64
  provider_cost entry =
      add entry.pricing.cost_per_1k_input_tokens entry.pricing.cost_per_1k_output_tokens

  -- `filter(|latency| *latency > 0.0)`
  abbrev positive : Option F64 → Option F64
  positive none = none
  positive (some x) = if lt_f64 zero_f64 x then some x else none

  abbrev or_else : Option F64 → Option F64 → Option F64
  or_else none second = second
  or_else (some x) second = some x

  unfoldable pub provider_latency_ms : ProviderEntry fl → Option MetricsSnapshot → F64
  provider_latency_ms entry none = infinity
  provider_latency_ms entry (some snapshot) =
      unwrap_or
        (or_else (positive (Dict.get snapshot.p95_latency_ms_by_provider (name_of entry)))
          (positive (Dict.get snapshot.avg_latency_ms_by_provider (name_of entry))))
        infinity

  unfoldable pub recent_error_count : MetricsSnapshot → String → ℕ
  unfolding sum_counts
  recent_error_count snapshot provider_name =
      sum_counts
        (Dict.get_or snapshot.recent_provider_errors_by_provider_and_category provider_name [])

  -- The snapshot's part of `provider_latency_score`, added to `score`.
  unfoldable pub add_load : Option MetricsSnapshot → String → F64 → F64
  unfolding recent_error_count
  add_load none provider_name score = score
  add_load (some snapshot) provider_name score =
      let in_flight =
        mul (from_nat (Dict.get_or snapshot.in_flight_requests_by_provider provider_name 0))
          (from_nat 25) in
      let pressure =
        mul (Dict.get_or snapshot.queue_pressure_by_provider provider_name zero_f64)
          (from_nat 10) in
      let errors = mul (from_nat (recent_error_count snapshot provider_name)) (from_nat 250) in
      add (add (add score in_flight) pressure) errors

  abbrev circuit_penalty_ms : CircuitState → F64
  circuit_penalty_ms closed = zero_f64
  circuit_penalty_ms half_open = from_nat 10_000
  circuit_penalty_ms opened = from_nat 1_000_000

  -- The registry's part of `provider_latency_score`.
  unfoldable pub add_circuit : Option ResilienceRegistry → String → F64 → F64
  unfolding circuit_state
  add_circuit none provider_name score = score
  add_circuit (some resilience) provider_name score =
      add score (circuit_penalty_ms (circuit_state resilience provider_name))

  unfoldable pub provider_latency_score :
      ProviderEntry fl → Option MetricsSnapshot → Option ResilienceRegistry → F64
  unfolding add_load add_circuit provider_latency_ms
  provider_latency_score entry metrics_snapshot resilience =
      add_circuit resilience (name_of entry)
        (add_load metrics_snapshot (name_of entry) (provider_latency_ms entry metrics_snapshot))

  unfoldable pub is_open_circuit : ProviderEntry fl → Option ResilienceRegistry → Bool
  unfolding circuit_state
  is_open_circuit entry none = false
  is_open_circuit entry (some registry) = is_opened (circuit_state registry (name_of entry))

  unfoldable pub provider_has_recent_errors : Option MetricsSnapshot → String → Bool
  unfolding recent_error_count
  provider_has_recent_errors none provider_name = false
  provider_has_recent_errors (some snapshot) provider_name =
      ltb 0 (recent_error_count snapshot provider_name)

  unfoldable pub provider_in_flight : MetricsSnapshot → String → ℕ
  provider_in_flight snapshot provider_name =
      Dict.get_or snapshot.in_flight_requests_by_provider provider_name 0

  unfoldable pub provider_queue_pressure : MetricsSnapshot → String → ℕ
  provider_queue_pressure snapshot provider_name =
      ceil_u64 (Dict.get_or snapshot.queue_pressure_by_provider provider_name zero_f64)

  -- `map(f).min().unwrap_or_default()`
  unfoldable pub least : (ProviderEntry fl → ℕ) → List (ProviderEntry fl) → ℕ
  least f [] = 0
  least f (x ∷ []) = f x
  least f (x ∷ y ∷ ys) = min (f x) (least f (y ∷ ys))

  unfoldable pub load_within_threshold :
      Option MetricsSnapshot → String → List (ProviderEntry fl) → ℕ → Bool
  unfolding least provider_in_flight provider_queue_pressure
  load_within_threshold none provider_name candidates threshold = true
  load_within_threshold (some snapshot) provider_name candidates threshold =
      let min_in_flight = least (λ e. provider_in_flight snapshot (name_of e)) candidates in
      let min_queue_pressure =
        least (λ e. provider_queue_pressure snapshot (name_of e)) candidates in
      leb (provider_in_flight snapshot provider_name) (saturating_add_u64 min_in_flight threshold)
      && leb (provider_queue_pressure snapshot provider_name)
          (saturating_add_u64 min_queue_pressure threshold)

  unfoldable pub load_score :
      ProviderEntry fl → Option MetricsSnapshot → Option ResilienceRegistry → ℕ
  unfolding is_open_circuit provider_in_flight provider_queue_pressure recent_error_count
  load_score entry none resilience = if is_open_circuit entry resilience then 1_000_000 else 0
  load_score entry (some snapshot) resilience =
      saturating_add_u64
        (saturating_add_u64
          (max (provider_in_flight snapshot (name_of entry))
            (provider_queue_pressure snapshot (name_of entry)))
          (saturating_mul_u64 (recent_error_count snapshot (name_of entry)) 1_000))
        (if is_open_circuit entry resilience then 1_000_000 else 0)

  -- The tests of `routing_decision_reason` on one latency map.
  abbrev has_latency : Option F64 → Bool
  has_latency seen = is_some_and seen (lt_f64 zero_f64)

  unfoldable pub latency_reason : Option MetricsSnapshot → String → String
  latency_reason none provider_name = "no_latency_data"
  latency_reason (some snapshot) provider_name =
      if has_latency (Dict.get snapshot.p95_latency_ms_by_provider provider_name)
      then "recent_latency_p95"
      else if has_latency (Dict.get snapshot.avg_latency_ms_by_provider provider_name)
      then "average_latency"
      else "no_latency_data"

  abbrev reason_for : Option MetricsSnapshot → Option (ProviderEntry fl) → String
  reason_for metrics_snapshot none = "no_provider"
  reason_for metrics_snapshot (some selected) = latency_reason metrics_snapshot (name_of selected)

  unfoldable pub routing_decision_reason :
      RoutingPolicy → Option (ProviderEntry fl) → Option MetricsSnapshot → String
  unfolding latency_reason
  routing_decision_reason priority selected metrics_snapshot = "priority"
  routing_decision_reason cost selected metrics_snapshot = "lowest_cost"
  routing_decision_reason prefix_affinity selected metrics_snapshot = "fallback"
  routing_decision_reason latency selected metrics_snapshot = reason_for metrics_snapshot selected
