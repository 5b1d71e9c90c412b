-- ===== src/Config/Sections.antt =====
-- src/config.rs: the checks of each section of the configuration. A check is its condition for an error
-- and the message that it pushes.
use Prim.Native.String.{◌++◌ as text_append}
use rustygate.Prelude.Dict.{Dict}
use rustygate.Prelude.{
  ℕ, String, Bool, true, false, not, ◌&&◌, Option, none, some, List, [], ◌∷◌, ◌++◌, ◌==◌, ltb,
  if◌then◌else◌, unwrap_or, is_some, is_some_and,
}
use rustygate.Text.{is_blank}
use rustygate.Float.{Float}
use rustygate.Config.{
  ServerConfig, GatewayConfig, TelemetryConfig, CacheConfig, StorageConfig, RoutingPolicy, priority,
  cost, latency, prefix_affinity, RateLimitBackendConfig, local, redis,
}

abbrev pub Check : Type 0
Check = Bool × String

-- The errors that the checks push, in order.
unfoldable pub errors_of : List Check → List String
errors_of [] = []
errors_of ((bad, message) ∷ checks) =
    let rest = errors_of checks in if bad then message ∷ rest else rest

-- `== Some(0)`
abbrev pub is_some_zero : Option ℕ → Bool
is_some_zero none = false
is_some_zero (some n) = n == 0

abbrev pub is_redis : RateLimitBackendConfig → Bool
is_redis local = false
is_redis redis = true

-- `matches!(policy, RoutingPolicy::Cost | RoutingPolicy::PrefixAffinity)`
abbrev pub is_no_fallback : RoutingPolicy → Bool
is_no_fallback priority = false
is_no_fallback cost = true
is_no_fallback latency = false
is_no_fallback prefix_affinity = true

unfoldable pub server_checks : ServerConfig → List Check
server_checks s =
    (s.port == 0, "server.port must be greater than 0")
    ∷ (s.shutdown_grace_period_ms == 0, "server.shutdown_grace_period_ms must be greater than 0")
    ∷ []

unfoldable pub alias_checks : Dict String → List Check
alias_checks [] = []
alias_checks ((alias, target) ∷ rest) =
    (is_blank alias, "gateway.model_aliases must not contain empty alias names")
    ∷ (
      is_blank target,
      text_append "gateway.model_aliases entry `"
          (text_append alias "` must not have an empty target"),
    )
    ∷ alias_checks rest

unfoldable pub retry_checks : GatewayConfig → List Check
retry_checks g =
    (g.retry.initial_backoff_ms == 0, "gateway.retry.initial_backoff_ms must be greater than 0")
    ∷ (g.retry.max_backoff_ms == 0, "gateway.retry.max_backoff_ms must be greater than 0")
    ∷ (
      ltb g.retry.max_backoff_ms g.retry.initial_backoff_ms,
      "gateway.retry.max_backoff_ms must be greater than or equal to initial_backoff_ms",
    )
    ∷ (
      g.circuit_breaker.failure_threshold == 0,
      "gateway.circuit_breaker.failure_threshold must be greater than 0",
    )
    ∷ (
      g.circuit_breaker.open_duration_ms == 0,
      "gateway.circuit_breaker.open_duration_ms must be greater than 0",
    )
    ∷ (
      g.circuit_breaker.half_open_max_probes == 0,
      "gateway.circuit_breaker.half_open_max_probes must be greater than 0",
    )
    ∷ []

unfoldable pub rate_limit_checks : GatewayConfig → List Check
rate_limit_checks g =
    (
      g.rate_limit.global_requests_per_minute == 0,
      "gateway.rate_limit.global_requests_per_minute must be greater than 0",
    )
    ∷ (
      g.rate_limit.global_burst_size == 0,
      "gateway.rate_limit.global_burst_size must be greater than 0",
    )
    ∷ (
      g.rate_limit.per_key_requests_per_minute == 0,
      "gateway.rate_limit.per_key_requests_per_minute must be greater than 0",
    )
    ∷ (
      g.rate_limit.per_key_burst_size == 0,
      "gateway.rate_limit.per_key_burst_size must be greater than 0",
    )
    ∷ (
      g.rate_limit.max_tracked_keys == 0,
      "gateway.rate_limit.max_tracked_keys must be greater than 0",
    )
    ∷ (
      is_redis g.rate_limit.backend && is_blank (unwrap_or g.rate_limit.redis_url_env ""),
      "gateway.rate_limit.redis_url_env must be set when backend is redis",
    )
    ∷ []

unfoldable pub limit_checks : GatewayConfig → List Check
limit_checks g =
    (
      g.request_limits.max_chat_body_bytes == 0,
      "gateway.request_limits.max_chat_body_bytes must be greater than 0",
    )
    ∷ (
      g.request_limits.max_messages_per_request == 0,
      "gateway.request_limits.max_messages_per_request must be greater than 0",
    )
    ∷ (
      g.request_limits.max_message_content_chars == 0,
      "gateway.request_limits.max_message_content_chars must be greater than 0",
    )
    ∷ (
      g.prefix_affinity_config.ttl_seconds == 0,
      "gateway.prefix_affinity.ttl_seconds must be greater than 0",
    )
    ∷ (
      g.prefix_affinity_config.max_entries == 0,
      "gateway.prefix_affinity.max_entries must be greater than 0",
    )
    ∷ (
      is_no_fallback g.prefix_affinity_config.fallback_policy,
      "gateway.prefix_affinity.fallback_policy must be either priority or latency",
    )
    ∷ (
      is_some_zero g.admission.max_global_in_flight,
      "gateway.admission.max_global_in_flight must be greater than 0",
    )
    ∷ (
      is_some_zero g.admission.max_estimated_prompt_tokens,
      "gateway.admission.max_estimated_prompt_tokens must be greater than 0",
    )
    ∷ (
      is_some_zero g.admission.max_estimated_total_tokens,
      "gateway.admission.max_estimated_total_tokens must be greater than 0",
    )
    ∷ (
      g.admission.retry_after_seconds == 0,
      "gateway.admission.retry_after_seconds must be greater than 0",
    )
    ∷ []

-- `validate_gateway_config`
unfoldable pub gateway_checks : GatewayConfig → List Check
unfolding retry_checks rate_limit_checks limit_checks alias_checks
gateway_checks g =
    (g.default_timeout_ms == 0, "gateway.default_timeout_ms must be greater than 0")
      ∷ (g.stream_idle_timeout_ms == 0, "gateway.stream_idle_timeout_ms must be greater than 0")
      ∷ (g.health_check_interval_ms == 0, "gateway.health_check_interval_ms must be greater than 0")
      ∷ (is_blank g.api_key_env, "gateway.api_key_env must not be empty")
      ∷ retry_checks g
    ++ rate_limit_checks g
    ++ limit_checks g
    ++ alias_checks g.model_aliases

unfoldable pub storage_checks : StorageConfig → List Check
storage_checks s =
    (
      s.enabled && is_blank s.database_url,
      "storage.database_url must not be empty when storage is enabled",
    )
    ∷ (
      s.enabled && s.retention_days == 0,
      "storage.retention_days must be greater than 0 when storage is enabled",
    )
    ∷ []

module _ (fl : Float) where
  -- `(0.0..=1.0).contains(&x)`
  abbrev pub is_fraction : fl.F64 → Bool
  is_fraction x = fl.le_f64 fl.zero_f64 x && fl.le_f64 x (fl.from_nat 1)

  unfoldable pub telemetry_checks : TelemetryConfig fl.F64 → List Check
  telemetry_checks t =
      (is_blank t.service_name, "telemetry.service_name must not be empty")
      ∷ (not (is_fraction t.sample_ratio), "telemetry.sample_ratio must be between 0.0 and 1.0")
      ∷ (is_some_and t.otlp_endpoint is_blank, "telemetry.otlp_endpoint must not be empty when set")
      ∷ []

  unfoldable pub cache_checks : CacheConfig fl.F64 → List Check
  cache_checks c =
      (
        c.enabled && c.default_ttl_seconds == 0,
        "cache.default_ttl_seconds must be greater than 0 when cache is enabled",
      )
      ∷ (
        c.enabled && c.max_entries == 0,
        "cache.max_entries must be greater than 0 when cache is enabled",
      )
      ∷ (
        c.semantic.enabled && not (is_some c.semantic.embedding_provider),
        "cache.semantic.embedding_provider must be set when semantic cache is enabled",
      )
      ∷ (
        not (is_fraction c.semantic.similarity_threshold),
        "cache.semantic.similarity_threshold must be between 0.0 and 1.0",
      )
      ∷ (
        c.semantic.enabled && c.semantic.index_capacity == 0,
        "cache.semantic.index_capacity must be greater than 0 when semantic cache is enabled",
      )
      ∷ []
