-- ===== src/Metrics/Tests.antt =====
-- src/telemetry/metrics.rs: concrete runs.
use rustygate.Float.Model.{nat_float}
use rustygate.Metrics.Snapshot.{percentile_latency}
use rustygate.Metrics.Percentile.{Indexes, percentile_latency-Indexes}
use rustygate.Metrics.Tally.{IsConsistent}
use rustygate.Metrics.Consistent.{
  Event, begun, ended, failure, stream_outcome, replay, replay-IsConsistent,
}
use rustygate.Prelude.{ℕ, false, none, List, ◌∷◌, ◌≡◌, refl, some, [], arith}
use rustygate.Prelude.Dict
use rustygate.Metrics.{
  no_metrics, MetricsRegistry, ProviderLoadEstimate, guard, finish, queue_pressure_units,
}
use rustygate.Fallback.Attempt.{ProviderAttempt}
use rustygate.Metrics.InFlight.{count, finish-guard}

abbrev pub empty_metrics : MetricsRegistry ℕ
empty_metrics = no_metrics 0

abbrev attempt : ProviderAttempt
attempt = record {
  provider_name = "replica-a";
  attempt_order = 1;
  latency_ms = 40;
  success = false;
  is_fallback = false;
  error_category = none;
}

abbrev events : List (Event nat_float)
events = begun ∷ failure 40 (attempt ∷ []) none ∷ stream_outcome "completed" 9 ∷ ended ∷ []

replay-IsConsistent_example : IsConsistent (replay nat_float (no_metrics 0) events)
replay-IsConsistent_example = replay-IsConsistent nat_float events

abbrev load : ProviderLoadEstimate
load = record { prompt_tokens = 2_100; max_completion_tokens = some 50 }

load_units : queue_pressure_units load ≡ 4
unfolding queue_pressure_units
load_units = refl

finish-guard_example :
    let g = guard empty_metrics "replica-a" load in
    let once = finish g.0 g.1 in
    let twice = finish once.0 once.1 in
    (count twice.0.in_flight_requests_by_provider "replica-a" ≡ 0)
    × (count twice.0.provider_queue_pressure_units "replica-a" ≡ 0)
unfolding queue_pressure_units Dict.get
finish-guard_example =
    finish-guard empty_metrics "replica-a" load "replica-a" (omega arith) (omega arith)

percentile_latency-Indexes_example :
    Indexes nat_float (30 ∷ 10 ∷ 20 ∷ []) 3 (percentile_latency nat_float (30 ∷ 10 ∷ 20 ∷ []) 1)
percentile_latency-Indexes_example = percentile_latency-Indexes nat_float 30 (10 ∷ 20 ∷ []) 1
