-- ===== src/Config/Spec.antt =====
-- src/config.rs: what a valid gateway section is, without reference to the checks.
use rustygate.Prelude.Dict.{Dict}
use rustygate.Prelude.{
  ℕ, ◌≤◌, String, ◌≡◌, ◌≢◌, refl, ◌↔◌, true, false, Option, some, List, [], ◌∷◌, ◌++◌, arith, All,
  unwrap_or,
}
use rustygate.Text.{is_blank}
use rustygate.Config.{GatewayConfig, cost, prefix_affinity, redis}
use rustygate.Config.Sections.{
  Check, errors_of, is_some_zero, gateway_checks, retry_checks, rate_limit_checks, limit_checks,
  alias_checks,
}

-- Checks push no error exactly where none of their conditions holds.
abbrev pub Passes : Check → Type 0
Passes c = c.0 ≡ false

pub errors_of_iff : (cs : List Check) → (errors_of cs ≡ []) ↔ All Passes cs
unfolding errors_of
errors_of_iff [] = ((λ h. tt), (λ h. refl))
errors_of_iff ((true, m) ∷ cs) = ((λ h. cc), (λ h. cc))
errors_of_iff ((false, m) ∷ cs) =
    let ih = errors_of_iff cs in ((λ h. (refl, ih.0 h)), (λ h. ih.1 h.1))

pub All-append_iff {ℓ κ} :
    {A : Type ℓ} (P : A → Type κ) (xs ys : List A) → All P (xs ++ ys) ↔ (All P xs × All P ys)
All-append_iff P [] ys = ((λ h. (tt, h)), (λ h. h.1))
All-append_iff P (x ∷ xs) ys =
    let ih = All-append_iff P xs ys in
    ((λ h. ((h.0, (ih.0 h.1).0), (ih.0 h.1).1)), (λ h. (h.0.0, ih.1 (h.0.1, h.1))))

pub record IsValidRetry (g : GatewayConfig) : Type 0 where
  pub waits : 1 ≤ g.retry.initial_backoff_ms
  pub ordered : g.retry.initial_backoff_ms ≤ g.retry.max_backoff_ms
  pub threshold : 1 ≤ g.circuit_breaker.failure_threshold
  pub opens : 1 ≤ g.circuit_breaker.open_duration_ms
  pub probes : 1 ≤ g.circuit_breaker.half_open_max_probes

pub record IsValidRateLimit (g : GatewayConfig) : Type 0 where
  pub global_rate : 1 ≤ g.rate_limit.global_requests_per_minute
  pub global_burst : 1 ≤ g.rate_limit.global_burst_size
  pub key_rate : 1 ≤ g.rate_limit.per_key_requests_per_minute
  pub key_burst : 1 ≤ g.rate_limit.per_key_burst_size
  pub tracked : 1 ≤ g.rate_limit.max_tracked_keys
  pub redis_url :
      g.rate_limit.backend ≡ redis → is_blank (unwrap_or g.rate_limit.redis_url_env "") ≡ false

pub record IsValidLimits (g : GatewayConfig) : Type 0 where
  pub body : 1 ≤ g.request_limits.max_chat_body_bytes
  pub messages : 1 ≤ g.request_limits.max_messages_per_request
  pub content : 1 ≤ g.request_limits.max_message_content_chars
  pub ttl : 1 ≤ g.prefix_affinity_config.ttl_seconds
  pub entries : 1 ≤ g.prefix_affinity_config.max_entries
  pub no_loop : g.prefix_affinity_config.fallback_policy ≢ prefix_affinity
  pub no_cost : g.prefix_affinity_config.fallback_policy ≢ cost
  pub in_flight : g.admission.max_global_in_flight ≢ some 0
  pub prompt_tokens : g.admission.max_estimated_prompt_tokens ≢ some 0
  pub total_tokens : g.admission.max_estimated_total_tokens ≢ some 0
  pub retry_after : 1 ≤ g.admission.retry_after_seconds

-- A named alias with a target.
abbrev pub IsValidAlias : String × String → Type 0
IsValidAlias (alias, target) = (is_blank alias ≡ false) × (is_blank target ≡ false)

pub record IsValidGateway (g : GatewayConfig) : Type 0 where
  pub timeout : 1 ≤ g.default_timeout_ms
  pub idle_timeout : 1 ≤ g.stream_idle_timeout_ms
  pub health_interval : 1 ≤ g.health_check_interval_ms
  pub api_key : is_blank g.api_key_env ≡ false
  pub retries : IsValidRetry g
  pub rates : IsValidRateLimit g
  pub limits : IsValidLimits g
  pub aliases : All IsValidAlias g.model_aliases

retry_iff : (g : GatewayConfig) → All Passes (retry_checks g) ↔ IsValidRetry g
unfolding retry_checks
retry_iff g = ((λ h. ground arith), (λ h. ground arith))

rate_limit_iff : (g : GatewayConfig) → All Passes (rate_limit_checks g) ↔ IsValidRateLimit g
unfolding rate_limit_checks
rate_limit_iff g = ((λ h. ground arith), (λ h. ground arith))

is_some_zero_iff : (o : Option ℕ) → (is_some_zero o ≡ false) ↔ (o ≢ some 0)
is_some_zero_iff o = ground arith

limit_iff : (g : GatewayConfig) → All Passes (limit_checks g) ↔ IsValidLimits g
unfolding limit_checks
limit_iff g = ((λ h. ground arith), (λ h. ground arith))

alias_iff : (xs : Dict String) → All Passes (alias_checks xs) ↔ All IsValidAlias xs
unfolding alias_checks
alias_iff [] = ((λ h. tt), (λ h. tt))
alias_iff ((a, t) ∷ xs) =
    let ih = alias_iff xs in ((λ h. ((h.0, h.1.0), ih.0 h.1.1)), (λ h. (h.0.0, (h.0.1, ih.1 h.1))))

pub gateway_iff : (g : GatewayConfig) → All Passes (gateway_checks g) ↔ IsValidGateway g
unfolding gateway_checks
gateway_iff g =
    let first =
      All-append_iff Passes (retry_checks g)
        (rate_limit_checks g ++ limit_checks g ++ alias_checks g.model_aliases) in
    let second =
      All-append_iff Passes (rate_limit_checks g)
        (limit_checks g ++ alias_checks g.model_aliases) in
    let third = All-append_iff Passes (limit_checks g) (alias_checks g.model_aliases) in
    (
      (λ h.
          let (r, h') = first.0 h.1.1.1.1 in
          let (l, h'') = second.0 h' in
          let (m, n) = third.0 h'' in
          record {
            timeout = ground arith;
            idle_timeout = ground arith;
            health_interval = ground arith;
            api_key = h.1.1.1.0;
            retries = (retry_iff g).0 r;
            rates = (rate_limit_iff g).0 l;
            limits = (limit_iff g).0 m;
            aliases = (alias_iff g.model_aliases).0 n;
          }),
      (λ v. (
        ground arith,
        (
          ground arith,
          (
            ground arith,
            (
              v.api_key,
              first.1 (
                (retry_iff g).1 v.retries,
                second.1 (
                  (rate_limit_iff g).1 v.rates,
                  third.1 ((limit_iff g).1 v.limits, (alias_iff g.model_aliases).1 v.aliases),
                ),
              ),
            ),
          ),
        ),
      )),
    )
