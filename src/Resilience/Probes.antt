-- ===== src/Resilience/Probes.antt =====
-- How a circuit opens, what it refuses while open, and how many probes it lets through.
use rustygate.Prelude.{
  ℕ, suc, ◌+◌, ◌-◌, ◌≤◌, ◌<◌, min, ◌≡◌, refl, ◌↔◌, true, false, some, List, [], ◌∷◌, arith, ◌⊎◌,
  length, All, inl, inr, if◌then◌else◌,
}
use rustygate.Resilience.Breaker.{
  closed, opened, half_open, CircuitBreakerPolicy, ProviderCircuitState, allow_call, on_failure,
  max_probes, threshold, fresh_circuit, from_millis,
}
use rustygate.Resilience.Invariant.{IsWords}

-- `record_failure` at each of the given times.
abbrev pub fail_all : CircuitBreakerPolicy → List ℕ → ProviderCircuitState → ProviderCircuitState
fail_all policy [] c = c
fail_all policy (now ∷ nows) c = fail_all policy nows (on_failure policy now c)

-- How many of the calls of `allow_provider_call` at the given times are let through.
abbrev pub count_allowed : CircuitBreakerPolicy → List ℕ → ProviderCircuitState → ℕ
count_allowed policy [] c = 0
count_allowed policy (now ∷ nows) c =
    let rest = count_allowed policy nows (allow_call policy now c).0 in
    if (allow_call policy now c).1 then suc rest else rest

fail_all-opened :
    (policy : CircuitBreakerPolicy) (nows : List ℕ) (c : ProviderCircuitState)
    → c.state ≡ opened
    → fail_all policy nows c ≡ c
unfolding on_failure
fail_all-opened policy [] c h = refl
fail_all-opened policy (now ∷ nows) c h =
    let same : on_failure policy now c ≡ c = ground arith in
    rw same (fail_all-opened policy nows c h)

fail_closed :
    (policy : CircuitBreakerPolicy) (now : ℕ) (c : ProviderCircuitState)
    → IsWords policy
    → c.state ≡ closed
    → c.consecutive_failures < threshold policy
    → ((suc c.consecutive_failures < threshold policy)
        × ((on_failure policy now c).state ≡ closed)
        × ((on_failure policy now c).consecutive_failures ≡ suc c.consecutive_failures))
      ⊎ ((suc c.consecutive_failures ≡ threshold policy)
          × ((on_failure policy now c).state ≡ opened))
unfolding on_failure
fail_closed policy now c w h k = ground arith

fail_all-closed :
    (policy : CircuitBreakerPolicy) (nows : List ℕ) (c : ProviderCircuitState)
    → IsWords policy
    → c.state ≡ closed
    → c.consecutive_failures < threshold policy
    → ((fail_all policy nows c).state ≡ opened)
      ↔ (threshold policy ≤ c.consecutive_failures + length nows)
fail_all-closed policy [] c w h k = ((λ e. ground arith), (λ e. absurd (omega arith)))
fail_all-closed policy (now ∷ nows) c w h k = elim (fail_closed policy now c w h k) [
  | inl (k', h', n) ↦
      let below : (on_failure policy now c).consecutive_failures < threshold policy = rw n k' in
      let ih = fail_all-closed policy nows (on_failure policy now c) w h' below in
      ((λ e. omega (arith, ih.0 e, n)), (λ e. ih.1 (omega (arith, n, e))))
  | inr (k', h') ↦
      ((λ e. omega arith), (λ e. rw (fail_all-opened policy nows (on_failure policy now c) h') h'))
]

-- The circuit of a provider that has not failed yet opens exactly when as many failures in a row
-- are recorded as its threshold says (at least one). The policy's fields are taken to be 32-bit.
pub opens_iff :
    (policy : CircuitBreakerPolicy) (nows : List ℕ)
    → IsWords policy
    → ((fail_all policy nows fresh_circuit).state ≡ opened) ↔ (threshold policy ≤ length nows)
opens_iff policy nows w =
    let both = fail_all-closed policy nows fresh_circuit w refl (omega arith) in
    ((λ e. omega (arith, both.0 e)), (λ e. both.1 (omega arith)))

half_open_call :
    (policy : CircuitBreakerPolicy) (now : ℕ) (c : ProviderCircuitState)
    → IsWords policy
    → c.state ≡ half_open
    → c.half_open_probes_used ≤ max_probes policy
    → ((c.half_open_probes_used < max_probes policy)
        × ((allow_call policy now c).1 ≡ true)
        × ((allow_call policy now c).0.state ≡ half_open)
        × ((allow_call policy now c).0.half_open_probes_used ≡ suc c.half_open_probes_used))
      ⊎ ((c.half_open_probes_used ≡ max_probes policy) × (allow_call policy now c ≡ (c, false)))
unfolding allow_call
half_open_call policy now c w h k = ground arith

-- A half-open circuit lets through exactly as many further calls as its probe budget has left,
-- whenever they come: no call's time matters, so a circuit whose budget is used up lets nothing
-- through until a success or a failure is recorded. The policy's fields are taken to be 32-bit.
pub count_allowed-half_open :
    (policy : CircuitBreakerPolicy) (nows : List ℕ) (c : ProviderCircuitState)
    → IsWords policy
    → c.state ≡ half_open
    → c.half_open_probes_used ≤ max_probes policy
    → c.half_open_probes_used + count_allowed policy nows c
      ≡ min (c.half_open_probes_used + length nows) (max_probes policy)
count_allowed-half_open policy [] c w h k = omega arith
count_allowed-half_open policy (now ∷ nows) c w h k = elim (half_open_call policy now c w h k) [
  | inl (k', yes', h', n) ↦
      let ih = count_allowed-half_open policy nows (allow_call policy now c).0 w h' (omega arith) in
      rw yes' (omega (arith, ih, n))
  | inr (k', e) ↦ rw e (omega (arith, count_allowed-half_open policy nows c w h k))
]

opened_call :
    (policy : CircuitBreakerPolicy) (now : ℕ) (c : ProviderCircuitState)
    → c.state ≡ opened
    → (((allow_call policy now c).1 ≡ true)
        × ((allow_call policy now c).0.state ≡ half_open)
        × ((allow_call policy now c).0.half_open_probes_used ≡ 1))
      ⊎ (allow_call policy now c ≡ (c, false))
unfolding allow_call
opened_call policy now c h = ground arith

-- Between the moment a circuit opens and the next recorded outcome, however many calls ask and
-- whenever they ask, no more than the allowed number of probes reach the provider.
pub probe_budget :
    (policy : CircuitBreakerPolicy) (nows : List ℕ) (c : ProviderCircuitState)
    → IsWords policy
    → c.state ≡ opened
    → count_allowed policy nows c ≤ max_probes policy
probe_budget policy [] c w h = omega arith
probe_budget policy (now ∷ nows) c w h = elim (opened_call policy now c h) [
  | inl (yes', h', n) ↦
      let ih = count_allowed-half_open policy nows (allow_call policy now c).0 w h' (omega arith) in
      rw yes' (omega (arith, ih, n))
  | inr e ↦ rw e (probe_budget policy nows c w h)
]

early_call :
    (policy : CircuitBreakerPolicy) (now at : ℕ) (c : ProviderCircuitState)
    → c.state ≡ opened
    → c.opened_at ≡ some at
    → now - at < from_millis policy.open_duration_ms
    → allow_call policy now c ≡ (c, false)
unfolding allow_call
early_call policy now at c h o k = ground arith

-- What one caller does to an open circuit: it asks, or it records a failure.
pub data Attempt : Type 0 where
  ask : ℕ → Attempt
  fail : ℕ → Attempt

abbrev pub attempt_time : Attempt → ℕ
attempt_time (ask now) = now
attempt_time (fail now) = now

abbrev pub try_all :
    CircuitBreakerPolicy → List Attempt → ProviderCircuitState → ProviderCircuitState × ℕ
try_all policy [] c = (c, 0)
try_all policy (ask now ∷ as') c =
    let rest = try_all policy as' (allow_call policy now c).0 in
    if (allow_call policy now c).1 then (rest.0, suc rest.1) else rest
try_all policy (fail now ∷ as') c = try_all policy as' (on_failure policy now c)

-- While an open circuit's cool-down lasts, no call gets through and nothing changes it, neither
-- further requests nor failures of calls that were under way.
pub cool_down :
    (policy : CircuitBreakerPolicy) (at : ℕ) (as' : List Attempt) (c : ProviderCircuitState)
    → c.state ≡ opened
    → c.opened_at ≡ some at
    → All (λ a. attempt_time a - at < from_millis policy.open_duration_ms) as'
    → try_all policy as' c ≡ (c, 0)
cool_down policy at [] c h o k = refl
cool_down policy at (ask now ∷ as') c h o k =
    rw (early_call policy now at c h o k.0) (cool_down policy at as' c h o k.1)
cool_down policy at (fail now ∷ as') c h o k =
    rw (fail_all-opened policy (now ∷ []) c h) (cool_down policy at as' c h o k.1)
