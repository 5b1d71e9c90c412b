-- ===== src/Config.antt =====
-- src/config.rs: the gateway's configuration. `F` stands for the floating point type of a field
-- (`f64` and `f32`). A host address is its text. Reading the TOML file is not modelled.
pub mod Sections
pub mod PoolScan
pub mod Providers
pub mod Validate
pub mod Spec
pub mod Fresh
pub mod PoolSpec
pub mod ProviderSpec
pub mod PoolsValid
pub mod Valid
pub mod Accepted
mod Tests
use rustygate.Prelude.{ℕ, String, Bool, true, false, Option, none, List}
use rustygate.Prelude.Dict.{Dict}

pub record ServerConfig : Type 0 where
  pub host : String
  pub port : ℕ  -- u16
  pub shutdown_grace_period_ms : ℕ  -- u64

pub data RoutingPolicy : Type 0 where
  priority cost latency prefix_affinity : RoutingPolicy

-- RoutingPolicy::as_str
unfoldable pub policy_name : RoutingPolicy → String
policy_name priority = "priority"
policy_name cost = "cost"
policy_name latency = "latency"
policy_name prefix_affinity = "prefix_affinity"

pub record RouteExposureConfig : Type 0 where
  pub placeholder_compat_routes : Bool

pub record PrefixAffinityConfig : Type 0 where
  pub ttl_seconds : ℕ  -- u64
  pub max_entries : ℕ  -- usize
  pub load_imbalance_threshold : ℕ  -- u64
  pub fallback_policy : RoutingPolicy

abbrev pub default_prefix_affinity_config : PrefixAffinityConfig
default_prefix_affinity_config = record {
  ttl_seconds = 300;
  max_entries = 10_000;
  load_imbalance_threshold = 2;
  fallback_policy = latency;
}

pub record ModelPoolConfig : Type 0 where
  pub name : String
  pub aliases : List String
  pub routing_policy : Option RoutingPolicy
  pub members : List String
  pub max_in_flight : Option ℕ

pub record GatewayRetryConfig : Type 0 where
  pub initial_backoff_ms : ℕ
  pub max_backoff_ms : ℕ
  pub jitter_ms : ℕ

abbrev pub default_gateway_retry_config : GatewayRetryConfig
default_gateway_retry_config = record {
  initial_backoff_ms = 100;
  max_backoff_ms = 2_000;
  jitter_ms = 50;
}

pub record GatewayCircuitBreakerConfig : Type 0 where
  pub failure_threshold : ℕ
  pub open_duration_ms : ℕ
  pub half_open_max_probes : ℕ

abbrev pub default_gateway_circuit_breaker_config : GatewayCircuitBreakerConfig
default_gateway_circuit_breaker_config = record {
  failure_threshold = 3;
  open_duration_ms = 5_000;
  half_open_max_probes = 1;
}

pub data RateLimitBackendConfig : Type 0 where
  local redis : RateLimitBackendConfig

pub record RateLimitConfig : Type 0 where
  pub backend : RateLimitBackendConfig
  pub global_requests_per_minute : ℕ
  pub global_burst_size : ℕ
  pub per_key_requests_per_minute : ℕ
  pub per_key_burst_size : ℕ
  pub max_tracked_keys : ℕ
  pub redis_url_env : Option String
  pub redis_fallback_to_local : Bool

abbrev pub default_rate_limit_config : RateLimitConfig
default_rate_limit_config = record {
  backend = local;
  global_requests_per_minute = 120;
  global_burst_size = 30;
  per_key_requests_per_minute = 60;
  per_key_burst_size = 20;
  max_tracked_keys = 10_000;
  redis_url_env = none;
  redis_fallback_to_local = true;
}

pub record RequestLimitsConfig : Type 0 where
  pub max_chat_body_bytes : ℕ
  pub max_messages_per_request : ℕ
  pub max_message_content_chars : ℕ

abbrev pub default_request_limits_config : RequestLimitsConfig
default_request_limits_config = record {
  max_chat_body_bytes = 65_536;
  max_messages_per_request = 64;
  max_message_content_chars = 8_000;
}

pub record AdmissionConfig : Type 0 where
  pub max_global_in_flight : Option ℕ  -- u64
  pub max_estimated_prompt_tokens : Option ℕ  -- u32
  pub max_estimated_total_tokens : Option ℕ  -- u32
  pub retry_after_seconds : ℕ  -- u64

abbrev pub default_admission_config : AdmissionConfig
default_admission_config = record {
  max_global_in_flight = none;
  max_estimated_prompt_tokens = none;
  max_estimated_total_tokens = none;
  retry_after_seconds = 1;
}

pub record GatewayConfig : Type 0 where
  pub default_timeout_ms : ℕ
  pub stream_idle_timeout_ms : ℕ
  pub max_retries : ℕ
  pub health_check_interval_ms : ℕ
  pub routing_policy : RoutingPolicy
  pub prefix_affinity_config : PrefixAffinityConfig  -- prefix_affinity
  pub route_exposure : RouteExposureConfig
  pub model_aliases : Dict String
  pub retry : GatewayRetryConfig
  pub circuit_breaker : GatewayCircuitBreakerConfig
  pub enable_request_logging : Bool
  pub log_prompt_content : Bool
  pub api_key_env : String
  pub rate_limit : RateLimitConfig
  pub request_limits : RequestLimitsConfig
  pub admission : AdmissionConfig

pub record TelemetryConfig (F : Type 0) : Type 0 where
  pub service_name : String
  pub otlp_endpoint : Option String
  pub sample_ratio : F

pub data CacheBackendConfig : Type 0 where
  memory sqlite : CacheBackendConfig

pub record SemanticCacheConfig (F : Type 0) : Type 0 where
  pub enabled : Bool
  pub embedding_provider : Option String
  pub similarity_threshold : F
  pub index_capacity : ℕ

pub record CacheConfig (F : Type 0) : Type 0 where
  pub enabled : Bool
  pub backend : CacheBackendConfig
  pub default_ttl_seconds : ℕ
  pub max_entries : ℕ
  pub semantic : SemanticCacheConfig F

pub record StorageConfig : Type 0 where
  pub enabled : Bool
  pub database_url : String
  pub retention_days : ℕ

abbrev pub default_storage_config : StorageConfig
default_storage_config = record {
  enabled = false;
  database_url = "sqlite://rustygate.db";
  retention_days = 30;
}

pub data ProviderKind : Type 0 where
  mock openai_compatible anthropic : ProviderKind

pub record ProviderConfig (F : Type 0) : Type 0 where
  pub name : String
  pub kind : ProviderKind
  pub model : String
  pub priority_rank : ℕ  -- priority: u32
  pub failure_rate : F
  pub base_latency_ms : ℕ
  pub base_url : Option String
  pub api_key_env : Option String
  pub timeout_ms : Option ℕ
  pub max_retries : Option ℕ
  pub retry_initial_backoff_ms : Option ℕ
  pub retry_max_backoff_ms : Option ℕ
  pub retry_jitter_ms : Option ℕ
  pub circuit_breaker_failure_threshold : Option ℕ
  pub circuit_breaker_open_duration_ms : Option ℕ
  pub circuit_breaker_half_open_max_probes : Option ℕ
  pub max_in_flight : Option ℕ
  pub cost_per_1k_input_tokens : F
  pub cost_per_1k_output_tokens : F

pub record AppConfig (F : Type 0) : Type 0 where
  pub server : ServerConfig
  pub gateway : GatewayConfig
  pub telemetry : TelemetryConfig F
  pub cache : CacheConfig F
  pub storage : StorageConfig
  pub providers : List (ProviderConfig F)
  pub model_pools : List ModelPoolConfig
