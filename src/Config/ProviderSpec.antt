-- ===== src/Config/ProviderSpec.antt =====
-- src/config.rs: what a valid list of providers is, without reference to the checks.
use rustygate.Prelude.{
  ◌≤◌, String, ◌≡◌, ◌≢◌, ◌↔◌, true, false, some, List, [], ◌∷◌, map, arith, All, contains,
  unwrap_or, is_some_and, if◌then◌else◌,
}
use rustygate.Text.{is_blank}
use rustygate.Float.{Float}
use rustygate.Config.{GatewayConfig, ProviderConfig}
use rustygate.Config.Sections.{is_fraction}
use rustygate.Config.Providers.{
  is_mock, is_unset, target_checks, validate_provider_auth, validate_provider_retry,
  validate_provider_breaker, provider_checks, each_provider,
}
use rustygate.Config.Spec.{Passes, All-append_iff}
use rustygate.Config.Fresh.{Fresh}

-- The target of an alias: one of the models, or blank, which is an error of the alias itself.
abbrev pub IsTarget : List String → String → Type 0
IsTarget targets target = is_blank target ≡ false → contains targets target ≡ true

pub IsTarget-iff :
    (targets xs : List String) → All Passes (target_checks targets xs) ↔ All (IsTarget targets) xs
unfolding target_checks
IsTarget-iff targets [] = ((λ h. tt), (λ h. tt))
IsTarget-iff targets (x ∷ xs) =
    let ih = IsTarget-iff targets xs in
    ((λ h. ((λ b. ground arith), ih.0 h.1)), (λ h. (ground arith, ih.1 h.1)))

module _ (fl : Float) where
  -- The values that a provider sets for itself.
  pub record IsValidProvider (gateway : GatewayConfig) (p : ProviderConfig fl.F64) : Type 0 where
    pub named : is_blank p.name ≡ false
    pub model_named : is_blank p.model ≡ false
    pub ranked : 1 ≤ p.priority_rank
    pub fails : is_fraction fl p.failure_rate ≡ true
    pub input_cost : fl.lt_f64 p.cost_per_1k_input_tokens fl.zero_f64 ≡ false
    pub output_cost : fl.lt_f64 p.cost_per_1k_output_tokens fl.zero_f64 ≡ false
    pub url : is_some_and p.base_url is_blank ≡ false
    pub timeout : p.timeout_ms ≢ some 0
    pub in_flight : p.max_in_flight ≢ some 0
    pub key : is_mock p.kind ≡ false → is_unset p.api_key_env ≡ false
    pub waits : p.retry_initial_backoff_ms ≢ some 0
    pub waits_most : p.retry_max_backoff_ms ≢ some 0
    pub ordered :
        unwrap_or p.retry_initial_backoff_ms gateway.retry.initial_backoff_ms
        ≤ unwrap_or p.retry_max_backoff_ms gateway.retry.max_backoff_ms
    pub threshold :
        1 ≤ unwrap_or p.circuit_breaker_failure_threshold gateway.circuit_breaker.failure_threshold
    pub opens :
        1 ≤ unwrap_or p.circuit_breaker_open_duration_ms gateway.circuit_breaker.open_duration_ms
    pub probes :
        1
        ≤ unwrap_or p.circuit_breaker_half_open_max_probes
            gateway.circuit_breaker.half_open_max_probes

  own_iff :
      (gateway : GatewayConfig) (names : List String) (p : ProviderConfig fl.F64)
      → All Passes (provider_checks fl gateway names p)
        ↔ (IsValidProvider gateway p × (contains names p.name ≡ false))
  unfolding provider_checks validate_provider_auth validate_provider_retry validate_provider_breaker
  own_iff gateway names p = ((λ h. ground arith), (λ h. ground arith))

  pub each_provider_iff :
      (gateway : GatewayConfig) (names : List String) (ps : List (ProviderConfig fl.F64))
      → All Passes (each_provider fl gateway names ps)
        ↔ (All (IsValidProvider gateway) ps × Fresh names (map (λ p. p.name) ps))
  unfolding each_provider
  each_provider_iff gateway names [] = ((λ h. (tt, tt)), (λ h. tt))
  each_provider_iff gateway names (p ∷ ps) =
      let own = own_iff gateway names p in
      let ih = each_provider_iff gateway (p.name ∷ names) ps in
      let split =
        All-append_iff Passes (provider_checks fl gateway names p)
          (each_provider fl gateway (if is_blank p.name then names else p.name ∷ names) ps) in
      (
        (λ h.
            let (o, r) = split.0 h in
            let (v, n) = own.0 o in let (vs, ns) = ih.0 (ground arith) in ((v, vs), (n, ns))),
        (λ h. split.1 (own.1 (h.0.0, h.1.0), rw h.0.0.named (ih.1 (h.0.1, h.1.1)))),
      )
