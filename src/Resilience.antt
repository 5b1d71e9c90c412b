-- ===== src/Resilience.antt =====
-- src/routing/resilience.rs: the circuit breaker and the retry policy of each provider.
-- An `Instant` is a number of nanoseconds, given to each call that reads the clock. A poisoned mutex
-- is not modelled: every lock succeeds, and each method is one atomic step on the registry.
pub mod Breaker
pub mod Invariant
pub mod Probes
mod Tests
use rustygate.Prelude.Dict
use rustygate.Prelude.Dict.{Dict}
use rustygate.Prelude.{ℕ, ◌*◌, ◌-◌, max, String, Bool, Option, none, some, List, [], ◌∷◌}
use Breaker.{ProviderCircuitState, CircuitState, CircuitBreakerPolicy, fresh_circuit}
use Breaker

pub record RetryPolicy : Type 0 where
  pub max_retries : ℕ  -- u32
  pub initial_backoff_ms : ℕ  -- u64
  pub max_backoff_ms : ℕ  -- u64
  pub jitter_ms : ℕ  -- u64

pub record ProviderResiliencePolicy : Type 0 where
  pub timeout_ms : Option ℕ
  pub retry : RetryPolicy
  pub breaker : CircuitBreakerPolicy

pub record ResilienceRegistry : Type 0 where
  pub default_policy : ProviderResiliencePolicy
  pub provider_policies : Dict ProviderResiliencePolicy
  pub circuits : Dict ProviderCircuitState

-- RetryPolicy::default
abbrev pub default_retry_policy : RetryPolicy
default_retry_policy = record {
  max_retries = 0;
  initial_backoff_ms = 100;
  max_backoff_ms = 2_000;
  jitter_ms = 50;
}

-- The loop of `new`: a fresh circuit for each name.
unfoldable pub insert_circuits : List String → Dict ProviderCircuitState → Dict ProviderCircuitState
insert_circuits [] circuits = circuits
insert_circuits (p ∷ ps) circuits = insert_circuits ps (Dict.insert p fresh_circuit circuits)

unfoldable pub new :
    ProviderResiliencePolicy → Dict ProviderResiliencePolicy → List String → ResilienceRegistry
unfolding insert_circuits
new default_policy provider_policies provider_names = record {
  default_policy = default_policy;
  provider_policies = provider_policies;
  circuits = insert_circuits provider_names [];
}

unfoldable pub policy_for : ResilienceRegistry → String → ProviderResiliencePolicy
policy_for r provider_name = Dict.get_or r.provider_policies provider_name r.default_policy

-- `circuits.entry(name).or_insert_with(default)`, as the value that the entry holds.
unfoldable pub circuit_of : ResilienceRegistry → String → ProviderCircuitState
circuit_of r provider_name = Dict.get_or r.circuits provider_name fresh_circuit

-- The entry written back.
unfoldable pub set_circuit : ResilienceRegistry → String → ProviderCircuitState → ResilienceRegistry
set_circuit r provider_name c = record r { circuits = Dict.insert provider_name c r.circuits }

unfoldable pub allow_provider_call : ResilienceRegistry → String → ℕ → ResilienceRegistry × Bool
unfolding policy_for circuit_of set_circuit
allow_provider_call r provider_name now =
    let (c, allowed) =
      Breaker.allow_call (policy_for r provider_name).breaker now (circuit_of r provider_name) in
    (set_circuit r provider_name c, allowed)

unfoldable pub record_success : ResilienceRegistry → String → ResilienceRegistry
unfolding circuit_of set_circuit
record_success r provider_name =
    set_circuit r provider_name (Breaker.on_success (circuit_of r provider_name))

unfoldable pub record_failure : ResilienceRegistry → String → ℕ → ResilienceRegistry
unfolding policy_for circuit_of set_circuit
record_failure r provider_name now =
    set_circuit r provider_name
      (Breaker.on_failure (policy_for r provider_name).breaker now (circuit_of r provider_name))

unfoldable pub circuit_state : ResilienceRegistry → String → CircuitState
unfolding circuit_of
circuit_state r provider_name = (circuit_of r provider_name).state
