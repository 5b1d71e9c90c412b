-- ===== src/Config/Validate.antt =====
-- src/config.rs: `AppConfig::validate`.
use Prim.Native.String.{◌++◌ as text_append}
use rustygate.Prelude.{String, List, [], ◌∷◌, ◌++◌, Result, ok, err}
use rustygate.Float.{Float}
use rustygate.Config.{AppConfig}
use rustygate.Config.Sections.{
  errors_of, server_checks, gateway_checks, telemetry_checks, cache_checks, storage_checks,
}
use rustygate.Config.Providers.{validate_providers}

-- `errors.join("; ")`
unfoldable pub join_errors : List String → String
join_errors [] = ""
join_errors (e ∷ []) = e
join_errors (e ∷ e' ∷ es) = text_append e (text_append "; " (join_errors (e' ∷ es)))

-- The end of `validate`: the message is that of `ConfigError::Validation`.
unfoldable pub report_errors : List String → Result (Unit {0}) String
unfolding join_errors
report_errors [] = ok tt
report_errors (e ∷ es) = err (join_errors (e ∷ es))

module _ (fl : Float) where
  unfoldable pub all_errors : AppConfig fl.F64 → List String
  unfolding errors_of server_checks gateway_checks telemetry_checks cache_checks storage_checks
      validate_providers
  all_errors c =
      errors_of (
        server_checks c.server
        ++ gateway_checks c.gateway
        ++ telemetry_checks fl c.telemetry
        ++ cache_checks fl c.cache
        ++ storage_checks c.storage)
      ++ validate_providers fl c.providers c.gateway c.model_pools

  unfoldable pub validate : AppConfig fl.F64 → Result (Unit {0}) String
  unfolding all_errors report_errors
  validate c = report_errors (all_errors c)
