-- ===== src/Config/Providers.antt =====
-- src/config.rs: `validate_providers` and the checks of one provider.
use rustygate.Prelude.Dict
use rustygate.Prelude.Dict.{Dict}
use rustygate.Prelude.{
  String, Bool, true, false, not, ◌&&◌, Option, none, some, List, [], ◌∷◌, ◌++◌, map, ◌==◌, ltb,
  if◌then◌else◌, unwrap_or, is_some_and, is_empty, contains,
}
use rustygate.Text.{is_blank}
use rustygate.Float.{Float}
use rustygate.Config.{
  GatewayConfig, ModelPoolConfig, ProviderConfig, ProviderKind, mock, openai_compatible, anthropic,
}
use rustygate.Config.Sections.{Check, errors_of, is_some_zero, is_fraction}
use rustygate.Config.PoolScan.{in_quotes, validate_model_pools}

abbrev pub is_mock : ProviderKind → Bool
is_mock mock = true
is_mock openai_compatible = false
is_mock anthropic = false

-- `is_none_or(|value| value.trim().is_empty())`
abbrev pub is_unset : Option String → Bool
is_unset none = true
is_unset (some value) = is_blank value

-- The loop over the targets of the aliases.
unfoldable pub target_checks : List String → List String → List Check
unfolding contains
target_checks valid_alias_targets [] = []
target_checks valid_alias_targets (target ∷ targets) =
    (
      not (is_blank target) && not (contains valid_alias_targets target),
      in_quotes "gateway.model_aliases target " target
          " must match a configured provider model or model pool",
    )
    ∷ target_checks valid_alias_targets targets

module _ (fl : Float) where
  abbrev provider_message : ProviderConfig fl.F64 → String → String
  provider_message p rest = in_quotes "provider " p.name rest

  unfoldable pub validate_provider_auth : ProviderConfig fl.F64 → List Check
  validate_provider_auth p =
      (
        not (is_mock p.kind) && is_unset p.api_key_env,
        provider_message p " api_key_env is required for real providers",
      )
      ∷ []

  unfoldable pub validate_provider_retry : ProviderConfig fl.F64 → GatewayConfig → List Check
  validate_provider_retry p gateway =
      (
        is_some_zero p.retry_initial_backoff_ms,
        provider_message p " retry_initial_backoff_ms must be greater than 0",
      )
      ∷ (
        is_some_zero p.retry_max_backoff_ms,
        provider_message p " retry_max_backoff_ms must be greater than 0",
      )
      ∷ (
        ltb (unwrap_or p.retry_max_backoff_ms gateway.retry.max_backoff_ms)
            (unwrap_or p.retry_initial_backoff_ms gateway.retry.initial_backoff_ms),
        provider_message p
            " retry_max_backoff_ms must be greater than or equal to retry_initial_backoff_ms",
      )
      ∷ []

  unfoldable pub validate_provider_breaker : ProviderConfig fl.F64 → GatewayConfig → List Check
  validate_provider_breaker p gateway =
      (
        is_some_zero p.circuit_breaker_failure_threshold,
        provider_message p " circuit_breaker_failure_threshold must be greater than 0",
      )
      ∷ (
        is_some_zero p.circuit_breaker_open_duration_ms,
        provider_message p " circuit_breaker_open_duration_ms must be greater than 0",
      )
      ∷ (
        is_some_zero p.circuit_breaker_half_open_max_probes,
        provider_message p " circuit_breaker_half_open_max_probes must be greater than 0",
      )
      ∷ (
        unwrap_or p.circuit_breaker_failure_threshold gateway.circuit_breaker.failure_threshold
            == 0,
        provider_message p " effective circuit breaker failure threshold must be greater than 0",
      )
      ∷ (
        unwrap_or p.circuit_breaker_open_duration_ms gateway.circuit_breaker.open_duration_ms == 0,
        provider_message p " effective circuit breaker open duration must be greater than 0",
      )
      ∷ (
        unwrap_or p.circuit_breaker_half_open_max_probes
              gateway.circuit_breaker.half_open_max_probes
            == 0,
        provider_message p " effective circuit breaker half-open probes must be greater than 0",
      )
      ∷ []

  -- The checks of the loop's body; `names` are the names of the providers before.
  unfoldable pub provider_checks : GatewayConfig → List String → ProviderConfig fl.F64 → List Check
  unfolding validate_provider_auth validate_provider_retry validate_provider_breaker contains
  provider_checks gateway names p =
      (is_blank p.name, "provider name must not be empty")
        ∷ (
          not (is_blank p.name) && contains names p.name,
          in_quotes "duplicate provider name " p.name "",
        )
        ∷ (is_blank p.model, provider_message p " model must not be empty")
        ∷ (p.priority_rank == 0, provider_message p " priority must be greater than 0")
        ∷ (
          not (is_fraction fl p.failure_rate),
          provider_message p " failure_rate must be between 0.0 and 1.0",
        )
        ∷ (
          fl.lt_f64 p.cost_per_1k_input_tokens fl.zero_f64,
          provider_message p " cost_per_1k_input_tokens must not be negative",
        )
        ∷ (
          fl.lt_f64 p.cost_per_1k_output_tokens fl.zero_f64,
          provider_message p " cost_per_1k_output_tokens must not be negative",
        )
        ∷ (is_some_and p.base_url is_blank, provider_message p " base_url must not be empty")
        ∷ (is_some_zero p.timeout_ms, provider_message p " timeout_ms must be greater than 0")
        ∷ (is_some_zero p.max_in_flight, provider_message p " max_in_flight must be greater than 0")
        ∷ validate_provider_auth p
      ++ validate_provider_retry p gateway
      ++ validate_provider_breaker p gateway

  -- The loop over the providers.
  unfoldable pub each_provider :
      GatewayConfig → List String → List (ProviderConfig fl.F64) → List Check
  unfolding provider_checks
  each_provider gateway names [] = []
  each_provider gateway names (p ∷ ps) =
      provider_checks gateway names p
      ++ each_provider gateway (if is_blank p.name then names else p.name ∷ names) ps

  unfoldable pub validate_providers :
      List (ProviderConfig fl.F64) → GatewayConfig → List ModelPoolConfig → List String
  unfolding validate_model_pools target_checks each_provider
  validate_providers providers gateway model_pools =
      let provider_models = map (λ p. p.model) providers in
      let provider_names = map (λ p. p.name) providers in
      let (pool_public_models, pool_errors) =
        validate_model_pools provider_names provider_models gateway.model_aliases model_pools in
      errors_of ((is_empty providers, "at least one provider must be configured") ∷ [])
      ++ pool_errors
      ++ errors_of (
          target_checks (provider_models ++ pool_public_models) (Dict.values gateway.model_aliases))
      ++ errors_of (each_provider gateway [] providers)
