-- ===== src/Resilience/Breaker.antt =====
-- src/routing/resilience.rs: the state of one provider's circuit, and what each method of the
-- registry does to it under the lock.
use rustygate.Prelude.{
  ℕ, ◌-◌, ◌*◌, max, Bool, true, false, Option, none, some, ltb, leb, if◌then◌else◌,
  saturating_add_u32, wrapping_add_u32,
}

-- `Open` is `opened`.
pub data CircuitState : Type 0 where
  closed opened half_open : CircuitState

pub record CircuitBreakerPolicy : Type 0 where
  pub failure_threshold : ℕ  -- u32
  pub open_duration_ms : ℕ  -- u64
  pub half_open_max_probes : ℕ  -- u32

abbrev pub default_breaker_policy : CircuitBreakerPolicy
default_breaker_policy = record {
  failure_threshold = 3;
  open_duration_ms = 5_000;
  half_open_max_probes = 1;
}

pub record ProviderCircuitState : Type 0 where
  pub state : CircuitState
  pub consecutive_failures : ℕ  -- u32
  pub opened_at : Option ℕ  -- an Instant, in nanoseconds
  pub half_open_probes_used : ℕ  -- u32

-- ProviderCircuitState::default
abbrev pub fresh_circuit : ProviderCircuitState
fresh_circuit = record {
  state = closed;
  consecutive_failures = 0;
  opened_at = none;
  half_open_probes_used = 0;
}

-- Duration::from_millis, in nanoseconds
abbrev pub from_millis : ℕ → ℕ
from_millis ms = ms * 1_000_000

-- `state.opened_at.is_none_or(|opened| now.duration_since(opened) >= open_duration)`;
-- `duration_since` is 0 for a later instant.
unfoldable pub ready_for_probe : CircuitBreakerPolicy → ℕ → Option ℕ → Bool
ready_for_probe policy now none = true
ready_for_probe policy now (some at) = leb (from_millis policy.open_duration_ms) (now - at)

-- `policy.breaker.half_open_max_probes.max(1)`
abbrev pub max_probes : CircuitBreakerPolicy → ℕ
max_probes policy = max policy.half_open_max_probes 1

-- `policy.breaker.failure_threshold.max(1)`
abbrev pub threshold : CircuitBreakerPolicy → ℕ
threshold policy = max policy.failure_threshold 1

-- The `match state.state` of `allow_provider_call`.
unfoldable pub allow_in :
    CircuitState → CircuitBreakerPolicy → ℕ → ProviderCircuitState → ProviderCircuitState × Bool
unfolding ready_for_probe
allow_in closed policy now c = (c, true)
allow_in opened policy now c =
    if ready_for_probe policy now c.opened_at
    then (record c { state = half_open; half_open_probes_used = 1 }, true)
    else (c, false)
allow_in half_open policy now c =
    if ltb c.half_open_probes_used (max_probes policy)
    then (record c { half_open_probes_used = wrapping_add_u32 c.half_open_probes_used 1 }, true)
    else (c, false)

unfoldable pub allow_call :
    CircuitBreakerPolicy → ℕ → ProviderCircuitState → ProviderCircuitState × Bool
unfolding allow_in
allow_call policy now c = allow_in c.state policy now c

unfoldable pub on_success : ProviderCircuitState → ProviderCircuitState
on_success c = record c {
  state = closed;
  consecutive_failures = 0;
  opened_at = none;
  half_open_probes_used = 0;
}

abbrev pub open_at : ℕ → ProviderCircuitState → ProviderCircuitState
open_at now c = record c { state = opened; opened_at = some now; half_open_probes_used = 0 }

-- The `match state.state` of `record_failure`.
unfoldable pub fail_in :
    CircuitState → CircuitBreakerPolicy → ℕ → ProviderCircuitState → ProviderCircuitState
fail_in closed policy now c =
    let c' = record c { consecutive_failures = saturating_add_u32 c.consecutive_failures 1 } in
    if leb (threshold policy) c'.consecutive_failures then open_at now c' else c'
fail_in half_open policy now c = open_at now c
fail_in opened policy now c = c

unfoldable pub on_failure : CircuitBreakerPolicy → ℕ → ProviderCircuitState → ProviderCircuitState
unfolding fail_in
on_failure policy now c = fail_in c.state policy now c
