-- ===== src/Metrics/InFlight.antt =====
-- src/telemetry/metrics.rs: what an in-flight guard leaves behind.
use rustygate.Prelude.Dict
use rustygate.Prelude.Dict.{Dict}
use rustygate.Prelude.{
  ℕ, ◌+◌, ◌-◌, ◌≤◌, String, ◌≡◌, inl, inr, arith, u64_max, Bool-cases, str_eq_iff, wrapping_add_u64,
  ◌==◌,
}
use rustygate.Metrics.{
  MetricsRegistry, ProviderLoadEstimate, add_to, decrement_or_remove, begin_provider_request,
  end_provider_request, guard, finish, queue_pressure_units,
}

abbrev pub count : Dict ℕ → String → ℕ
count m key = Dict.get_or m key 0

-- Adding and then taking the same amount away restores every count.
restored :
    (m : Dict ℕ) (j k : String) (n : ℕ)
    → count m j + n ≤ u64_max
    → count (decrement_or_remove (add_to m j n) j n) k ≡ count m k
unfolding add_to decrement_or_remove Dict.get
restored m j k n h =
    let sum = wrapping_add_u64 (count m j) n in
    let after = Dict.insert j sum m in
    let found = Dict.get-insert_self j sum m in
    let here = str_eq_iff j k in
    let there = Dict.get-insert j k sum m in
    rw (found, decrement_or_remove)
      (elim (Bool-cases (sum - n == 0)) [
        | inl e ↦ rw e (rw (Dict.get-remove j k after) (ground (arith, there, here)))
        | inr e ↦ rw e (rw (Dict.get-insert j k (sum - n) after) (ground (arith, there, here)))
      ])

-- A guard that is made and then dropped, also twice, leaves every provider's count of calls and queue
-- pressure as it was, where the two sums of the guarded provider fit in a `u64`.
pub finish-guard :
    {F : Type 0} (m : MetricsRegistry F) (name : String) (load : ProviderLoadEstimate) (k : String)
    → count m.in_flight_requests_by_provider name + 1 ≤ u64_max
    → count m.provider_queue_pressure_units name + queue_pressure_units load ≤ u64_max
    → let g = guard m name load in
      let once = finish g.0 g.1 in
      let twice = finish once.0 once.1 in
      (count twice.0.in_flight_requests_by_provider k ≡ count m.in_flight_requests_by_provider k)
      × (count twice.0.provider_queue_pressure_units k ≡ count m.provider_queue_pressure_units k)
unfolding guard finish begin_provider_request end_provider_request
finish-guard m name load k h h' = (
  restored m.in_flight_requests_by_provider name k 1 h,
  restored m.provider_queue_pressure_units name k (queue_pressure_units load) h',
)
