-- ===== src/Metrics/Snapshot.antt =====
-- src/telemetry/metrics.rs: the figures that a snapshot of the registry shows. A percentile is `none`
-- where the index into the samples would be out of range, which ends in a panic.
use Prim.Native.Nat.{compare}
use rustygate.Prelude.Dict
use rustygate.Prelude.Dict.{Dict}
use rustygate.Prelude.Sort.{sort_by}
use rustygate.Prelude.{
  ℕ, zero, suc, ◌-◌, ◌==◌, String, Option, none, some, List, [], ◌∷◌, map, length, if◌then◌else◌,
  wrapping_add_u64,
}
use rustygate.Float.{Float}
use rustygate.Metrics.{MetricsRegistry, add_to}

abbrev pub get_elem? : List ℕ → ℕ → Option ℕ
get_elem? [] n = none
get_elem? (x ∷ xs) zero = some x
get_elem? (x ∷ xs) (suc n) = get_elem? xs n

-- The values of a map, changed one by one.
abbrev pub map_values : {A B : Type 0} → (A → B) → Dict A → Dict B
map_values f m = map (λ e. (e.0, f e.1)) m

unfoldable pub count_categories : Dict ℕ → List String → Dict ℕ
unfolding add_to
count_categories m [] = m
count_categories m (category ∷ samples) = count_categories (add_to m category 1) samples

module _ (fl : Float) where
  abbrev pub sample_of : Option ℕ → Option fl.F64
  sample_of none = none
  sample_of (some x) = some (fl.from_nat x)

  -- The value of the rank, counted from 1, among the sorted samples
  unfoldable pub at_rank : List ℕ → ℕ → Option fl.F64
  at_rank sorted rank = if rank == 0 then none else sample_of (get_elem? sorted (rank - 1))

  unfoldable pub percentile_latency : List ℕ → fl.F64 → Option fl.F64
  unfolding sort_by at_rank
  percentile_latency [] percentile = some fl.zero_f64
  percentile_latency (x ∷ xs) percentile =
      let sorted = sort_by compare (x ∷ xs) in
      at_rank sorted (fl.ceil_u64 (fl.mul (fl.from_nat (length sorted)) percentile))

  -- `part as f64 / whole as f64`, or 0 where the whole is 0
  abbrev pub ratio : ℕ → ℕ → fl.F64
  ratio part whole =
      if whole == 0 then fl.zero_f64 else fl.div (fl.from_nat part) (fl.from_nat whole)

  -- The literals 0.95 and 0.50: the quotients rounded to the nearest number.
  abbrev pub p95 : fl.F64
  p95 = fl.div (fl.from_nat 95) (fl.from_nat 100)

  abbrev pub p50 : fl.F64
  p50 = fl.div (fl.from_nat 1) (fl.from_nat 2)

  unfoldable pub error_rate : MetricsRegistry fl.F64 → fl.F64
  error_rate m = ratio m.failed_requests m.total_requests

  unfoldable pub avg_latency_ms : MetricsRegistry fl.F64 → fl.F64
  avg_latency_ms m = ratio m.total_latency_ms m.total_requests

  unfoldable pub p95_latency_ms : MetricsRegistry fl.F64 → Option fl.F64
  unfolding percentile_latency
  p95_latency_ms m = percentile_latency m.latency_samples_ms p95

  unfoldable pub avg_latency_ms_by_provider : MetricsRegistry fl.F64 → Dict fl.F64
  avg_latency_ms_by_provider m =
      map (λ e. (e.0, ratio (Dict.get_or m.provider_total_latency_ms e.0 0) e.1))
        m.requests_by_provider

  unfoldable pub p95_latency_ms_by_provider : MetricsRegistry fl.F64 → Dict (Option fl.F64)
  unfolding percentile_latency
  p95_latency_ms_by_provider m =
      map_values (λ samples. percentile_latency samples p95) m.provider_latency_samples_ms

  unfoldable pub p95_ttft_ms_by_provider : MetricsRegistry fl.F64 → Dict (Option fl.F64)
  unfolding percentile_latency
  p95_ttft_ms_by_provider m =
      map_values (λ samples. percentile_latency samples p95) m.provider_ttft_samples_ms

  unfoldable pub p50_ttft_ms_by_provider : MetricsRegistry fl.F64 → Dict (Option fl.F64)
  unfolding percentile_latency
  p50_ttft_ms_by_provider m =
      map_values (λ samples. percentile_latency samples p50) m.provider_ttft_samples_ms

  unfoldable pub p95_stream_duration_ms : MetricsRegistry fl.F64 → Option fl.F64
  unfolding percentile_latency
  p95_stream_duration_ms m = percentile_latency m.stream_duration_samples_ms p95

  unfoldable pub queue_pressure_by_provider : MetricsRegistry fl.F64 → Dict fl.F64
  queue_pressure_by_provider m = map_values fl.from_nat m.provider_queue_pressure_units

  unfoldable pub recent_provider_errors : MetricsRegistry fl.F64 → Dict (Dict ℕ)
  unfolding count_categories
  recent_provider_errors m = map_values (count_categories []) m.provider_error_samples

  unfoldable pub cache_hit_ratio : MetricsRegistry fl.F64 → fl.F64
  cache_hit_ratio m =
      let hits = Dict.get_or m.cache_lookups_by_outcome "hit" 0 in
      let misses = Dict.get_or m.cache_lookups_by_outcome "miss" 0 in
      ratio hits (wrapping_add_u64 hits misses)
