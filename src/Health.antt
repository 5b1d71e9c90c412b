-- ===== src/Health.antt =====
-- src/routing/health.rs: what the last checks of the providers said. A call is one step under the lock,
-- and its poisoning is not modelled; the readings of the clock and the answers of the checks are arguments.
pub mod Ready
mod Tests
use rustygate.Prelude.Dict
use rustygate.Prelude.Dict.{Dict}
use rustygate.Prelude.{
  ℕ, ◌+◌, String, Bool, true, false, not, ◌&&◌, Option, none, some, List, [], ◌∷◌, any, is_empty,
  Result, ok, err,
}
use rustygate.Float.{Float}
use rustygate.Errors.{ProviderError}
use rustygate.Provider.{ProviderEntry}
use rustygate.Fallback.Attempt.{ErrorCategory, provider_error_category}

pub data ProviderHealthStatus : Type 0 where
  unknown healthy unhealthy : ProviderHealthStatus

pub record ProviderHealthSnapshot : Type 0 where
  pub status : ProviderHealthStatus
  pub checked_at_unix_seconds : Option ℕ
  pub error_category : Option ErrorCategory

-- ProviderHealthSnapshot::default
abbrev pub unchecked : ProviderHealthSnapshot
unchecked = record { status = unknown; checked_at_unix_seconds = none; error_category = none }

abbrev pub ProviderHealthRegistry : Type 0
ProviderHealthRegistry = Dict ProviderHealthSnapshot

abbrev pub insert_unchecked : ProviderHealthRegistry → List String → ProviderHealthRegistry
insert_unchecked r [] = r
insert_unchecked r (name ∷ names) = insert_unchecked (Dict.insert name unchecked r) names

-- ProviderHealthRegistry::new
unfoldable pub new : List String → ProviderHealthRegistry
new provider_names = insert_unchecked [] provider_names

unfoldable pub record_health :
    ProviderHealthRegistry
    → ℕ
    → String
    → ProviderHealthStatus
    → Option ErrorCategory
    → ProviderHealthRegistry
record_health r unix_seconds provider status error_category =
    Dict.insert provider
      (record {
        status = status;
        checked_at_unix_seconds = some unix_seconds;
        error_category = error_category;
      })
      r

-- record_success
unfoldable pub record_healthy : ProviderHealthRegistry → ℕ → String → ProviderHealthRegistry
unfolding record_health
record_healthy r now provider = record_health r now provider healthy none

-- record_failure
unfoldable pub record_unhealthy :
    ProviderHealthRegistry → ℕ → String → ProviderError → ProviderHealthRegistry
unfolding record_health provider_error_category
record_unhealthy r now provider error =
    record_health r now provider unhealthy (some (provider_error_category error))

-- `snapshot.status != ProviderHealthStatus::Unhealthy`
abbrev pub may_serve : ProviderHealthSnapshot → Bool
may_serve snapshot = elim snapshot.status [ unhealthy ↦ false | _ ↦ true ]

unfoldable pub any_provider_ready : ProviderHealthRegistry → Bool
unfolding is_empty any
any_provider_ready r = not (is_empty r) && any may_serve (Dict.values r)

unfoldable pub record_result :
    ProviderHealthRegistry → ℕ → String → Result (Unit {0}) ProviderError → ProviderHealthRegistry
unfolding record_healthy record_unhealthy
record_result r now name (ok _) = record_healthy r now name
record_result r now name (err error) = record_unhealthy r now name error

-- The answer of a provider's check and the reading of the clock after it, by the turn of the loop.
module _ (fl : Float) (health_check : ℕ → String → Result (Unit {0}) ProviderError)
    (unix_seconds : ℕ → ℕ) where
  -- The turns of the loop from one on
  unfoldable pub probe_from :
      ℕ → ProviderHealthRegistry → List (ProviderEntry fl) → ProviderHealthRegistry
  unfolding record_result
  probe_from turn r [] = r
  probe_from turn r (entry ∷ entries) =
      let name = entry.provider.name in
      probe_from (turn + 1) (record_result r (unix_seconds turn) name (health_check turn name))
        entries

  unfoldable pub probe_once :
      ProviderHealthRegistry → List (ProviderEntry fl) → ProviderHealthRegistry
  unfolding probe_from
  probe_once r entries = probe_from 0 r entries
