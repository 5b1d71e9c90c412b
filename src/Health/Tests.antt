-- ===== src/Health/Tests.antt =====
-- src/routing/health.rs: a round of checks of two providers, one of which is down.
use rustygate.Prelude.Dict
use rustygate.Prelude.{
  ℕ, ◌+◌, String, ◌≡◌, refl, true, [], ◌∷◌, any, str_eq, if◌then◌else◌, Result, ok, err,
}
use rustygate.Float.Model.{nat_float}
use rustygate.Errors.{ProviderError, timeout}
use rustygate.Strategy.Tests.{providers}
use rustygate.Health.{ProviderHealthRegistry, new, probe_once, any_provider_ready}
use rustygate.Health.Ready.{last_checked, get-probe_once, probe_once-any_provider_ready}

abbrev health_check : ℕ → String → Result (Unit {0}) ProviderError
health_check turn name = if str_eq name "east" then err timeout else ok tt

-- A second passes with each check.
abbrev unix_seconds : ℕ → ℕ
unix_seconds turn = 7 + turn

abbrev registry : ProviderHealthRegistry
registry = new ("east" ∷ "west" ∷ [])

get-probe_once_example :
    Dict.get (probe_once nat_float health_check unix_seconds registry providers) "east"
    ≡ last_checked nat_float health_check unix_seconds 0 providers "east" (Dict.get registry "east")
get-probe_once_example =
    get-probe_once nat_float health_check unix_seconds registry providers "east"

west_is_known : any (λ e. str_eq e.provider.name "west") providers ≡ true
unfolding any str_eq
west_is_known = refl

west_passes : (turn : ℕ) → health_check turn "west" ≡ ok tt
unfolding str_eq
west_passes turn = refl

probe_once-any_provider_ready_example :
    any_provider_ready (probe_once nat_float health_check unix_seconds registry providers) ≡ true
probe_once-any_provider_ready_example =
    probe_once-any_provider_ready nat_float health_check unix_seconds registry providers "west"
      west_is_known west_passes
