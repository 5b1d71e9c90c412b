-- ===== src/Resilience/Tests.antt =====
-- Runs of the circuit breaker, and its theorems at concrete inputs.
use rustygate.Prelude.Dict
use rustygate.Prelude.{◌+◌, ◌≤◌, ◌≡◌, refl, ◌↔◌, none, some, List, [], ◌∷◌, arith, str_eq, min}
use rustygate.Resilience.Breaker.{
  ProviderCircuitState, opened, half_open, fresh_circuit, default_breaker_policy, allow_call,
  on_failure,
}
use rustygate.Resilience.{
  ProviderResiliencePolicy, default_retry_policy, new, policy_for, allow_provider_call,
  record_failure, circuit_state,
}
use rustygate.Resilience.Invariant.{
  Call, allows, fails, run, IsSoundRegistry, run-new-IsSoundRegistry,
}
use rustygate.Resilience.Probes.{
  fail_all, count_allowed, opens_iff, count_allowed-half_open, probe_budget, ask, fail, try_all,
  cool_down,
}

abbrev default_policy : ProviderResiliencePolicy
default_policy = record {
  timeout_ms = none;
  retry = default_retry_policy;
  breaker = default_breaker_policy;
}

abbrev history : List Call
history =
    allows "mock-primary" 0
    ∷ fails "mock-primary" 1
    ∷ fails "mock-primary" 2
    ∷ fails "mock-primary" 3
    ∷ allows "mock-primary" 6_000_000_000
    ∷ []

history_opens : circuit_state (run (new default_policy [] []) history) "mock-primary" ≡ half_open
unfolding circuit_state new allow_provider_call record_failure allow_call on_failure Dict.insert
    Dict.get str_eq
history_opens = refl

run-new-IsSoundRegistry_example : IsSoundRegistry (run (new default_policy [] []) history)
unfolding new policy_for Dict.get
run-new-IsSoundRegistry_example =
    run-new-IsSoundRegistry default_policy [] [] history (λ q. omega arith)

opens_iff_example :
    ((fail_all default_breaker_policy (1 ∷ 2 ∷ 3 ∷ []) fresh_circuit).state ≡ opened) ↔ (3 ≤ 3)
opens_iff_example = opens_iff default_breaker_policy (1 ∷ 2 ∷ 3 ∷ []) (omega arith)

abbrev open_circuit : ProviderCircuitState
open_circuit = record {
  state = opened;
  consecutive_failures = 3;
  opened_at = some 3;
  half_open_probes_used = 0;
}

abbrev probing_circuit : ProviderCircuitState
probing_circuit = record open_circuit { state = half_open; half_open_probes_used = 1 }

count_allowed-half_open_example :
    1 + count_allowed default_breaker_policy (7 ∷ 8 ∷ []) probing_circuit ≡ min (1 + 2) 1
count_allowed-half_open_example =
    count_allowed-half_open default_breaker_policy (7 ∷ 8 ∷ []) probing_circuit (omega arith) refl
      (omega arith)

probe_budget_example :
    count_allowed default_breaker_policy (6_000_000_000 ∷ 6_000_000_001 ∷ []) open_circuit ≤ 1
probe_budget_example =
    probe_budget default_breaker_policy (6_000_000_000 ∷ 6_000_000_001 ∷ []) open_circuit
      (omega arith) refl

probe_goes_through :
    count_allowed default_breaker_policy (6_000_000_000 ∷ 6_000_000_001 ∷ []) open_circuit ≡ 1
unfolding allow_call
probe_goes_through = refl

cool_down_example :
    try_all default_breaker_policy (ask 10 ∷ fail 11 ∷ ask 12 ∷ []) open_circuit ≡ (open_circuit, 0)
cool_down_example =
    cool_down default_breaker_policy 3 (ask 10 ∷ fail 11 ∷ ask 12 ∷ []) open_circuit refl refl
      (omega arith)
