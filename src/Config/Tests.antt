-- ===== src/Config/Tests.antt =====
-- src/config.rs: a configuration, and the theorems about the check at it.
use rustygate.Prelude.{ℕ, ◌≡◌, refl, ◌↔◌, true, false, none, [], ◌∷◌, ok}
use rustygate.Prelude.Dict
use rustygate.Prelude.{is_empty, str_eq}
use rustygate.Text.{is_blank}
use rustygate.Float.Model.{nat_float}
use rustygate.Config.{
  AppConfig, GatewayConfig, ProviderConfig, mock, memory, latency, default_prefix_affinity_config,
  default_gateway_retry_config, default_gateway_circuit_breaker_config, default_rate_limit_config,
  default_request_limits_config, default_admission_config, default_storage_config,
}
use rustygate.Prelude.{inl, contains, some}
use rustygate.Pools.{pool_of_config, from_configs, pool_for_public_model, public_ids}
use rustygate.Config.{ModelPoolConfig}
use rustygate.Config.Accepted.{validate-pool_for_public_model}
use rustygate.Config.Validate.{validate}
use rustygate.Config.Valid.{IsValidConfig, validate-IsValidConfig}

abbrev gateway : GatewayConfig
gateway = record {
  default_timeout_ms = 1_000;
  stream_idle_timeout_ms = 1_000;
  max_retries = 1;
  health_check_interval_ms = 1_000;
  routing_policy = latency;
  prefix_affinity_config = default_prefix_affinity_config;
  route_exposure = record { placeholder_compat_routes = false };
  model_aliases = ("small", "fast") ∷ ("large", "m") ∷ [];
  retry = default_gateway_retry_config;
  circuit_breaker = default_gateway_circuit_breaker_config;
  enable_request_logging = true;
  log_prompt_content = false;
  api_key_env = "KEY";
  rate_limit = default_rate_limit_config;
  request_limits = default_request_limits_config;
  admission = default_admission_config;
}

abbrev east : ProviderConfig ℕ
east = record {
  name = "east";
  kind = mock;
  model = "m";
  priority_rank = 1;
  failure_rate = 0;
  base_latency_ms = 5;
  base_url = none;
  api_key_env = none;
  timeout_ms = none;
  max_retries = none;
  retry_initial_backoff_ms = none;
  retry_max_backoff_ms = none;
  retry_jitter_ms = none;
  circuit_breaker_failure_threshold = none;
  circuit_breaker_open_duration_ms = none;
  circuit_breaker_half_open_max_probes = none;
  max_in_flight = none;
  cost_per_1k_input_tokens = 1;
  cost_per_1k_output_tokens = 1;
}

abbrev fast : ModelPoolConfig
fast = record {
  name = "fast";
  aliases = "quick" ∷ [];
  routing_policy = none;
  members = " east" ∷ [];
  max_in_flight = none;
}

abbrev app : AppConfig ℕ
app = record {
  server = record { host = "127.0.0.1"; port = 8080; shutdown_grace_period_ms = 10 };
  gateway = gateway;
  telemetry = record { service_name = "gate"; otlp_endpoint = none; sample_ratio = 1 };
  cache = record {
    enabled = true;
    backend = memory;
    default_ttl_seconds = 60;
    max_entries = 10;
    semantic = record {
      enabled = false;
      embedding_provider = none;
      similarity_threshold = 1;
      index_capacity = 10;
    };
  };
  storage = default_storage_config;
  providers = east ∷ [];
  model_pools = fast ∷ [];
}

validate-IsValidConfig_example : (validate nat_float app ≡ ok tt) ↔ IsValidConfig nat_float app
validate-IsValidConfig_example = validate-IsValidConfig nat_float app

accepts_app : validate nat_float app ≡ ok tt
unfolding validate is_blank is_empty str_eq Dict.get
accepts_app = refl

has_alias : contains (public_ids fast) "quick" ≡ true
unfolding public_ids contains
has_alias = refl

validate-pool_for_public_model_example :
    pool_for_public_model (from_configs (fast ∷ [])) "quick" ≡ some (pool_of_config fast)
validate-pool_for_public_model_example =
    validate-pool_for_public_model nat_float app fast "quick" accepts_app (inl refl) has_alias
