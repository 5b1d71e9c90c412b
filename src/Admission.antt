-- ===== src/Admission.antt =====
-- src/routing/admission.rs: the in-flight limits of the gateway, of the model pools and of the
-- providers, and the token budgets of a request. The counters stand behind one mutex, so each method
-- is one atomic step; a poisoned mutex is not modelled.
pub mod Counters
pub mod Acquire
pub mod Calls
pub mod Traffic
mod Tests
use rustygate.Prelude.Dict
use rustygate.Prelude.Dict.{Dict}
use rustygate.Prelude.{
  ℕ, ◌+◌, ◌-◌, max, String, Bool, true, false, Option, none, some, List, [], ◌∷◌, ◌++◌, map, ltb,
  leb, ◌==◌, if◌then◌else◌, unwrap_or, is_some, is_some_and, saturating_add_u32, saturating_add_u64,
  wrapping_add_u64, Result, ok, err, ◌>>=◌, ◌>>◌, reject_if,
}
use rustygate.Config.{AdmissionConfig, ProviderConfig, ModelPoolConfig}
use rustygate.Errors.{AppError, admission_rejected}
use rustygate.Chat.{ChatCompletionRequest}
use rustygate.Tokens.{estimate_tokens_for_messages}

pub data AdmissionRejectionReason : Type 0 where
  global_in_flight_limit pool_in_flight_limit provider_in_flight_limit : AdmissionRejectionReason
  max_estimated_prompt_tokens max_estimated_total_tokens : AdmissionRejectionReason

-- AdmissionRejectionReason::as_str
unfoldable pub reason_name : AdmissionRejectionReason → String
reason_name global_in_flight_limit = "global_in_flight_limit"
reason_name pool_in_flight_limit = "pool_in_flight_limit"
reason_name provider_in_flight_limit = "provider_in_flight_limit"
reason_name max_estimated_prompt_tokens = "max_estimated_prompt_tokens"
reason_name max_estimated_total_tokens = "max_estimated_total_tokens"

unfoldable pub public_message : AdmissionRejectionReason → String
public_message global_in_flight_limit = "gateway global in-flight limit exceeded"
public_message pool_in_flight_limit = "model pool in-flight limit exceeded"
public_message provider_in_flight_limit = "provider in-flight limit exceeded"
public_message max_estimated_prompt_tokens = "estimated prompt token limit exceeded"
public_message max_estimated_total_tokens = "estimated total token limit exceeded"

pub record AdmissionRejection : Type 0 where
  pub reason : AdmissionRejectionReason
  pub retry_after_seconds : ℕ

unfoldable pub into_app_error : {U : Type 0} → AdmissionRejection → Option U → AppError U
unfolding public_message
into_app_error r request_id =
    admission_rejected (public_message r.reason) request_id r.retry_after_seconds

pub record AdmissionLimits : Type 0 where
  pub max_global : Option ℕ  -- max_global_in_flight
  pub max_prompt_tokens : Option ℕ  -- max_estimated_prompt_tokens
  pub max_total_tokens : Option ℕ  -- max_estimated_total_tokens
  pub retry_after : ℕ  -- retry_after_seconds
  pub pool_max_in_flight : Dict ℕ
  pub provider_max_in_flight : Dict ℕ

-- `filter_map` over the configured limits, in order.
abbrev pub named_limits {ℓ} :
    {C : Type ℓ} → (C → String) → (C → Option ℕ) → List C → List (String × ℕ)
named_limits name limit [] = []
named_limits name limit (c ∷ cs) =
    let rest = named_limits name limit cs in
    elim (limit c) [ none ↦ rest | some n ↦ (name c, n) ∷ rest ]

unfoldable pub from_config :
    {F : Type 0}
    → AdmissionConfig
    → List (ProviderConfig F)
    → List ModelPoolConfig
    → AdmissionLimits
from_config admission providers model_pools = record {
  max_global = admission.max_global_in_flight;
  max_prompt_tokens = admission.max_estimated_prompt_tokens;
  max_total_tokens = admission.max_estimated_total_tokens;
  retry_after = admission.retry_after_seconds;
  pool_max_in_flight = Dict.collect (named_limits (λ p. p.name) (λ p. p.max_in_flight) model_pools);
  provider_max_in_flight =
      Dict.collect (named_limits (λ p. p.name) (λ p. p.max_in_flight) providers);
}

pub record AdmissionCounters : Type 0 where
  pub global_in_flight : ℕ  -- u64
  pub pool_in_flight : Dict ℕ
  pub provider_in_flight : Dict ℕ

pub record AdmissionController : Type 0 where
  pub limits : AdmissionLimits
  pub counters : AdmissionCounters

abbrev pub no_requests : AdmissionCounters
no_requests = record { global_in_flight = 0; pool_in_flight = []; provider_in_flight = [] }

unfoldable pub new : AdmissionLimits → AdmissionController
new limits = record { limits = limits; counters = no_requests }

unfoldable pub disabled : AdmissionController
unfolding new
disabled = new (record {
  max_global = none;
  max_prompt_tokens = none;
  max_total_tokens = none;
  retry_after = 1;
  pool_max_in_flight = [];
  provider_max_in_flight = [];
})

unfoldable pub check_token_budget :
    {V F : Type 0}
    → AdmissionController
    → ChatCompletionRequest V F
    → Result (Unit {0}) AdmissionRejectionReason
check_token_budget a request = do
  let prompt_tokens = estimate_tokens_for_messages request.messages
  reject_if (is_some_and a.limits.max_prompt_tokens (λ limit. ltb limit prompt_tokens))
      max_estimated_prompt_tokens
  let total_tokens = saturating_add_u32 prompt_tokens (unwrap_or request.max_tokens 0)
  reject_if (is_some_and a.limits.max_total_tokens (λ limit. ltb limit total_tokens))
      max_estimated_total_tokens

pub data AdmissionSlot : Type 0 where
  global : AdmissionSlot
  pool : String → AdmissionSlot
  provider : String → AdmissionSlot

-- The controller that a guard shares is the state that its methods take.
pub record AdmissionGuard : Type 0 where
  pub slots : List AdmissionSlot
  pub active : Bool

abbrev pub new_guard : List AdmissionSlot → AdmissionGuard
new_guard slots = record { slots = slots; active = true }

abbrev pub rejection : AdmissionController → AdmissionRejectionReason → AdmissionRejection
rejection a reason = record { reason = reason; retry_after_seconds = max a.limits.retry_after 1 }

-- `*values.entry(key).or_default() += 1`
unfoldable pub increment : String → Dict ℕ → Dict ℕ
increment key values = Dict.insert key (wrapping_add_u64 (Dict.get_or values key 0) 1) values

unfoldable pub decrement_or_remove : Dict ℕ → String → Dict ℕ
decrement_or_remove values key = elim (Dict.get values key) [
  | none ↦ values
  | some value ↦
      if value - 1 == 0 then Dict.remove key values else Dict.insert key (value - 1) values
]

-- The limit and the counter of a slot.
abbrev pub limit_of : AdmissionController → AdmissionSlot → Option ℕ
limit_of a global = a.limits.max_global
limit_of a (pool p) = Dict.get a.limits.pool_max_in_flight p
limit_of a (provider p) = Dict.get a.limits.provider_max_in_flight p

abbrev pub counter_of : AdmissionController → AdmissionSlot → ℕ
counter_of a global = a.counters.global_in_flight
counter_of a (pool p) = Dict.get_or a.counters.pool_in_flight p 0
counter_of a (provider p) = Dict.get_or a.counters.provider_in_flight p 0

-- `limit.is_some_and(|limit| current >= limit)`
abbrev pub is_full : AdmissionController → AdmissionSlot → Bool
is_full a s = is_some_and (limit_of a s) (λ limit. leb limit (counter_of a s))

-- The early returns of `try_acquire_request`: the first limit that is reached.
unfoldable pub full_limit : AdmissionController → Option String → Option AdmissionRejectionReason
full_limit a none = if is_full a global then some global_in_flight_limit else none
full_limit a (some p) =
    if is_full a global
    then some global_in_flight_limit
    else if is_full a (pool p)
    then some pool_in_flight_limit
    else none

-- The two updates, each with the slot that it pushes.
unfoldable pub take_global : AdmissionController → AdmissionController × List AdmissionSlot
take_global a =
    if is_some a.limits.max_global
    then (
      record a {
        counters = record (a.counters) {
          global_in_flight = saturating_add_u64 a.counters.global_in_flight 1;
        };
      },
      global ∷ [],
    )
    else (a, [])

unfoldable pub take_pool :
    Option String → AdmissionController → AdmissionController × List AdmissionSlot
unfolding increment
take_pool none a = (a, [])
take_pool (some p) a =
    if Dict.contains_key a.limits.pool_max_in_flight p
    then (
      record a {
        counters = record (a.counters) { pool_in_flight = increment p a.counters.pool_in_flight };
      },
      pool p ∷ [],
    )
    else (a, [])

abbrev pub Acquired : Type 0
Acquired = Result AdmissionGuard AdmissionRejection

unfoldable pub try_acquire_request :
    AdmissionController → Option String → AdmissionController × Acquired
try_acquire_request a pool_name = elim (full_limit a pool_name) [
  | some reason ↦ (a, err (rejection a reason))
  | none ↦
      let (a', slots) = take_global a in
      let (a'', more) = take_pool pool_name a' in (a'', ok (new_guard (slots ++ more)))
]

unfoldable pub try_acquire_provider : AdmissionController → String → AdmissionController × Acquired
try_acquire_provider a name = elim (limit_of a (provider name)) [
  | none ↦ (a, ok (new_guard []))
  | some limit ↦
      if leb limit (counter_of a (provider name))
      then (a, err (rejection a provider_in_flight_limit))
      else (
        record a {
          counters = record (a.counters) {
            provider_in_flight = increment name a.counters.provider_in_flight;
          };
        },
        ok (new_guard (provider name ∷ [])),
      )
]

-- One round of the loop of `release`.
unfoldable pub release_slot : AdmissionController → AdmissionSlot → AdmissionController
release_slot a global = record a {
  counters = record (a.counters) { global_in_flight = a.counters.global_in_flight - 1 };
}
release_slot a (pool p) = record a {
  counters = record (a.counters) {
    pool_in_flight = decrement_or_remove a.counters.pool_in_flight p;
  };
}
release_slot a (provider p) = record a {
  counters = record (a.counters) {
    provider_in_flight = decrement_or_remove a.counters.provider_in_flight p;
  };
}

unfoldable pub release : AdmissionController → List AdmissionSlot → AdmissionController
release a [] = a
release a (s ∷ ss) = release (release_slot a s) ss

-- `finish`, which `drop` calls too.
unfoldable pub finish : AdmissionController → AdmissionGuard → AdmissionController × AdmissionGuard
finish a g = if g.active then (release a g.slots, record g { active = false }) else (a, g)
