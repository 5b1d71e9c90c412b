-- ===== src/Resilience/Invariant.antt =====
-- What holds of every circuit of the registry between two calls, over every history of calls.
use rustygate.Prelude.Dict
use rustygate.Prelude.Dict.{Dict}
use rustygate.Prelude.{
  ℕ, ◌≤◌, ◌<◌, String, ◌≡◌, ◌≢◌, refl, subst, inl, inr, none, List, [], ◌∷◌, arith, u32_max,
  String-cases,
}
use rustygate.Resilience.Breaker.{
  closed, opened, half_open, CircuitBreakerPolicy, ProviderCircuitState, allow_call, on_success,
  on_failure, max_probes, threshold, fresh_circuit,
}
use rustygate.Resilience.{
  ResilienceRegistry, ProviderResiliencePolicy, policy_for, circuit_of, set_circuit,
  allow_provider_call, record_success, record_failure, new, insert_circuits,
}

-- The policy's fields are `u32` values.
abbrev pub IsWords : CircuitBreakerPolicy → Type 0
IsWords policy = (policy.failure_threshold ≤ u32_max) × (policy.half_open_max_probes ≤ u32_max)

pub record IsSound (policy : CircuitBreakerPolicy) (c : ProviderCircuitState) : Type 0 where
  pub below_threshold : c.state ≡ closed → c.consecutive_failures < threshold policy
  pub has_opening : c.state ≡ opened → c.opened_at ≢ none
  pub probing : c.state ≡ half_open → 1 ≤ c.half_open_probes_used
  pub budgeted : c.state ≡ half_open → c.half_open_probes_used ≤ max_probes policy

fresh-IsSound : (policy : CircuitBreakerPolicy) → IsSound policy fresh_circuit
fresh-IsSound policy = ground arith

allow_call-IsSound :
    (policy : CircuitBreakerPolicy) (now : ℕ) (c : ProviderCircuitState)
    → IsWords policy
    → IsSound policy c
    → IsSound policy (allow_call policy now c).0
unfolding allow_call
allow_call-IsSound policy now c w s = ground arith

on_success-IsSound :
    (policy : CircuitBreakerPolicy) (c : ProviderCircuitState) → IsSound policy (on_success c)
unfolding on_success
on_success-IsSound policy c = ground arith

on_failure-IsSound :
    (policy : CircuitBreakerPolicy) (now : ℕ) (c : ProviderCircuitState)
    → IsWords policy
    → IsSound policy c
    → IsSound policy (on_failure policy now c)
unfolding on_failure
on_failure-IsSound policy now c w s = ground arith

-- A call of one of the registry's three mutating methods.
pub data Call : Type 0 where
  allows : String → ℕ → Call
  succeeds : String → Call
  fails : String → ℕ → Call

abbrev pub step : ResilienceRegistry → Call → ResilienceRegistry
step r (allows p now) = (allow_provider_call r p now).0
step r (succeeds p) = record_success r p
step r (fails p now) = record_failure r p now

abbrev pub run : ResilienceRegistry → List Call → ResilienceRegistry
run r [] = r
run r (e ∷ es) = run (step r e) es

abbrev pub provider : Call → String
provider (allows p now) = p
provider (succeeds p) = p
provider (fails p now) = p

-- What a call does to the circuit of the provider that it names.
unfoldable pub effect : Call → CircuitBreakerPolicy → ProviderCircuitState → ProviderCircuitState
effect (allows p now) policy c = (allow_call policy now c).0
effect (succeeds p) policy c = on_success c
effect (fails p now) policy c = on_failure policy now c

circuit_of-set_circuit_self :
    (r : ResilienceRegistry) (p : String) (c : ProviderCircuitState)
    → circuit_of (set_circuit r p c) p ≡ c
unfolding circuit_of set_circuit
circuit_of-set_circuit_self r p c = rw (Dict.get-insert_self p c r.circuits)

circuit_of-set_circuit_ne :
    (r : ResilienceRegistry) (p q : String) (c : ProviderCircuitState)
    → p ≢ q
    → circuit_of (set_circuit r p c) q ≡ circuit_of r q
unfolding circuit_of set_circuit
circuit_of-set_circuit_ne r p q c h = rw (Dict.get-insert_ne p q c r.circuits h)

step-set_circuit :
    (r : ResilienceRegistry) (e : Call)
    → step r e
      ≡ set_circuit r
          (provider e)
          (effect e (policy_for r (provider e)).breaker (circuit_of r (provider e)))
unfolding effect allow_provider_call record_success record_failure
step-set_circuit r (allows p now) = refl
step-set_circuit r (succeeds p) = refl
step-set_circuit r (fails p now) = refl

policy_for-step :
    (r : ResilienceRegistry) (e : Call) (q : String) → policy_for (step r e) q ≡ policy_for r q
unfolding policy_for allow_provider_call record_success record_failure
policy_for-step r (allows p now) q = refl
policy_for-step r (succeeds p) q = refl
policy_for-step r (fails p now) q = refl

pub circuit_of-step_self :
    (r : ResilienceRegistry) (e : Call)
    → circuit_of (step r e) (provider e)
      ≡ effect e (policy_for r (provider e)).breaker (circuit_of r (provider e))
circuit_of-step_self r e = rw (step-set_circuit r e) (circuit_of-set_circuit_self r (provider e) _)

-- A call leaves the circuit of every other provider, and every policy, as it was.
pub step_frame :
    (r : ResilienceRegistry) (e : Call) (q : String)
    → provider e ≢ q
    → (circuit_of (step r e) q ≡ circuit_of r q) × (policy_for (step r e) q ≡ policy_for r q)
step_frame r e q h = (
  rw (step-set_circuit r e) (circuit_of-set_circuit_ne r (provider e) q _ h),
  policy_for-step r e q,
)

abbrev pub IsSoundRegistry : ResilienceRegistry → Type 0
IsSoundRegistry r = (q : String) → IsSound (policy_for r q).breaker (circuit_of r q)

abbrev pub HasWords : ResilienceRegistry → Type 0
HasWords r = (q : String) → IsWords (policy_for r q).breaker

effect-IsSound :
    (e : Call) (policy : CircuitBreakerPolicy) (c : ProviderCircuitState)
    → IsWords policy
    → IsSound policy c
    → IsSound policy (effect e policy c)
unfolding effect
effect-IsSound (allows p now) policy c w s = allow_call-IsSound policy now c w s
effect-IsSound (succeeds p) policy c w s = on_success-IsSound policy c
effect-IsSound (fails p now) policy c w s = on_failure-IsSound policy now c w s

-- Each call keeps every circuit sound.
pub step-IsSoundRegistry :
    (r : ResilienceRegistry) (e : Call)
    → HasWords r
    → IsSoundRegistry r
    → IsSoundRegistry (step r e)
step-IsSoundRegistry r e w s q = elim (String-cases (provider e) q) [
  | inl p ↦
      subst (λ q. IsSound (policy_for (step r e) q).breaker (circuit_of (step r e) q)) p
        (rw (policy_for-step r e (provider e), circuit_of-step_self r e)
          (effect-IsSound e _ _ (w (provider e)) (s (provider e))))
  | inr n ↦ rw ((step_frame r e q n).0, (step_frame r e q n).1) (s q)
]

circuit_of-insert_circuits :
    (ps : List String) (r : ResilienceRegistry) (q : String)
    → circuit_of r q ≡ fresh_circuit
    → circuit_of (record r { circuits = insert_circuits ps r.circuits }) q ≡ fresh_circuit
unfolding insert_circuits set_circuit
circuit_of-insert_circuits [] r q h = h
circuit_of-insert_circuits (p ∷ ps) r q h =
    circuit_of-insert_circuits ps (set_circuit r p fresh_circuit) q (elim (String-cases p q) [
      | inl e ↦ rw (← e) (circuit_of-set_circuit_self r p fresh_circuit)
      | inr n ↦ rw (circuit_of-set_circuit_ne r p q fresh_circuit n) h
    ])

run-IsSoundRegistry :
    (r : ResilienceRegistry) (es : List Call)
    → HasWords r
    → IsSoundRegistry r
    → IsSoundRegistry (run r es)
run-IsSoundRegistry r [] w s = s
run-IsSoundRegistry r (e ∷ es) w s =
    run-IsSoundRegistry (step r e) es (λ q. rw (policy_for-step r e q) (w q))
      (step-IsSoundRegistry r e w s)

new-IsSoundRegistry :
    (d : ProviderResiliencePolicy) (ps : Dict ProviderResiliencePolicy) (names : List String)
    → IsSoundRegistry (new d ps names)
unfolding new
new-IsSoundRegistry d ps names q =
    rw
      (circuit_of-insert_circuits names
        (record { default_policy = d; provider_policies = ps; circuits = [] }) q
        (unfold circuit_of Dict.get in refl))
      (fresh-IsSound _)

-- After any history of calls on a new registry every provider's circuit is sound: a closed circuit
-- has fewer consecutive failures than the threshold, an open one knows since when it is open, and a
-- half-open one has let through at least one probe and at most as many as its policy allows. The
-- policies' thresholds and probe limits are taken to be 32-bit values.
pub run-new-IsSoundRegistry :
    (d : ProviderResiliencePolicy) (ps : Dict ProviderResiliencePolicy) (names : List String)
    (es : List Call)
    → HasWords (new d ps names)
    → IsSoundRegistry (run (new d ps names) es)
run-new-IsSoundRegistry d ps names es w =
    run-IsSoundRegistry (new d ps names) es w (new-IsSoundRegistry d ps names)
