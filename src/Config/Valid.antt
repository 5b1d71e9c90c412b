-- ===== src/Config/Valid.antt =====
-- src/config.rs: which configurations `AppConfig::validate` accepts.
use rustygate.Prelude.Dict
use rustygate.Prelude.Dict.{Dict}
use rustygate.Prelude.{
  ◌≤◌, String, ◌≡◌, refl, ◌↔◌, true, false, ◌||◌, List, [], ◌∷◌, ◌++◌, map, arith, All, contains,
  is_empty, is_some, is_some_and, ok,
}
use rustygate.Text.{is_blank, trim}
use rustygate.Float.{Float}
use rustygate.Config.{
  AppConfig, ServerConfig, TelemetryConfig, CacheConfig, StorageConfig, ModelPoolConfig,
}
use rustygate.Config.Sections.{
  errors_of, is_fraction, server_checks, gateway_checks, telemetry_checks, cache_checks,
  storage_checks,
}
use rustygate.Config.PoolScan.{scan_pools, no_pools_seen, validate_model_pools}
use rustygate.Config.Providers.{target_checks, each_provider, validate_providers}
use rustygate.Config.Validate.{report_errors, all_errors, validate}
use rustygate.Config.Spec.{Passes, errors_of_iff, All-append_iff, IsValidGateway, gateway_iff}
use rustygate.Config.Fresh.{
  AreDistinct, Fresh-nil_iff, append-nil_iff, push_all, contains-push_all, contains-append,
  append4-nil_iff,
}
use rustygate.Config.PoolSpec.{IsValidPool, public_names}
use rustygate.Config.PoolsValid.{AreNext, scan_pools_iff, scan_pools_public}
use rustygate.Config.ProviderSpec.{IsTarget, IsTarget-iff, IsValidProvider, each_provider_iff}

pub record IsValidServer (s : ServerConfig) : Type 0 where
  pub port : 1 ≤ s.port
  pub grace : 1 ≤ s.shutdown_grace_period_ms

pub record IsValidStorage (s : StorageConfig) : Type 0 where
  pub url : s.enabled ≡ true → is_blank s.database_url ≡ false
  pub retention : s.enabled ≡ true → 1 ≤ s.retention_days

server_iff : (s : ServerConfig) → All Passes (server_checks s) ↔ IsValidServer s
unfolding server_checks
server_iff s = ((λ h. ground arith), (λ h. ground arith))

storage_iff : (s : StorageConfig) → All Passes (storage_checks s) ↔ IsValidStorage s
unfolding storage_checks
storage_iff s = ((λ h. ground arith), (λ h. ground arith))

-- The public names of the pools: the check collects them in the reverse order.
abbrev pub IsAliasTarget : List String → List ModelPoolConfig → String → Type 0
IsAliasTarget models pools target =
    is_blank target ≡ false
    → (contains models target || contains (public_names pools) target) ≡ true

report_iff : (es : List String) → (report_errors es ≡ ok tt) ↔ (es ≡ [])
unfolding report_errors
report_iff [] = ((λ h. refl), (λ h. refl))
report_iff (e ∷ es) = ((λ h. cc), (λ h. cc))

same_targets :
    (models : List String) (pools : List ModelPoolConfig) (ts : List String)
    → All (IsTarget (models ++ push_all (public_names pools) [])) ts
      ↔ All (IsAliasTarget models pools) ts
unfolding contains
same_targets models pools [] = ((λ h. tt), (λ h. tt))
same_targets models pools (t ∷ ts) =
    let ih = same_targets models pools ts in
    let e = contains-append models (push_all (public_names pools) []) t in
    let e' = contains-push_all (public_names pools) [] t in
    (
      (λ h. ((λ b. ground (arith, e, e', h.0 b)), ih.0 h.1)),
      (λ h. ((λ b. ground (arith, e, e', h.0 b)), ih.1 h.1)),
    )

module _ (fl : Float) where
  pub record IsValidTelemetry (t : TelemetryConfig fl.F64) : Type 0 where
    pub service : is_blank t.service_name ≡ false
    pub ratio : is_fraction fl t.sample_ratio ≡ true
    pub endpoint : is_some_and t.otlp_endpoint is_blank ≡ false

  pub record IsValidCache (c : CacheConfig fl.F64) : Type 0 where
    pub ttl : c.enabled ≡ true → 1 ≤ c.default_ttl_seconds
    pub entries : c.enabled ≡ true → 1 ≤ c.max_entries
    pub embeds : c.semantic.enabled ≡ true → is_some c.semantic.embedding_provider ≡ true
    pub threshold : is_fraction fl c.semantic.similarity_threshold ≡ true
    pub capacity : c.semantic.enabled ≡ true → 1 ≤ c.semantic.index_capacity

  -- What a valid configuration is, without reference to the checks.
  pub record IsValidConfig (c : AppConfig fl.F64) : Type 0 where
    pub server : IsValidServer c.server
    pub gateway : IsValidGateway c.gateway
    pub telemetry : IsValidTelemetry c.telemetry
    pub cache : IsValidCache c.cache
    pub storage : IsValidStorage c.storage
    pub some_provider : is_empty c.providers ≡ false
    pub providers : All (IsValidProvider fl c.gateway) c.providers
    pub provider_names : AreDistinct (map (λ p. p.name) c.providers)
    pub pools :
        All
          (IsValidPool
            (map (λ p. p.name) c.providers)
            (map (λ p. p.model) c.providers)
            c.gateway.model_aliases)
          c.model_pools
    pub pool_names : AreDistinct (map (λ pool. trim pool.name) c.model_pools)
    pub public_distinct : AreDistinct (public_names c.model_pools)
    pub targets :
        All
          (IsAliasTarget (map (λ p. p.model) c.providers) c.model_pools)
          (Dict.values c.gateway.model_aliases)

  telemetry_iff :
      (t : TelemetryConfig fl.F64) → All Passes (telemetry_checks fl t) ↔ IsValidTelemetry t
  unfolding telemetry_checks
  telemetry_iff t = ((λ h. ground arith), (λ h. ground arith))

  cache_iff : (c : CacheConfig fl.F64) → All Passes (cache_checks fl c) ↔ IsValidCache c
  unfolding cache_checks
  cache_iff c = ((λ h. ground arith), (λ h. ground arith))

  -- What the providers, the targets and the pools of a valid configuration are.
  abbrev AreValidProviders : AppConfig fl.F64 → Type 0
  AreValidProviders c =
      let names = map (λ p. p.name) c.providers in
      let models = map (λ p. p.model) c.providers in
      (is_empty c.providers ≡ false)
      × (AreNext names models c.gateway.model_aliases no_pools_seen c.model_pools
          × (All (IsAliasTarget models c.model_pools) (Dict.values c.gateway.model_aliases)
              × (All (IsValidProvider fl c.gateway) c.providers × AreDistinct names)))

  providers_iff :
      (c : AppConfig fl.F64)
      → (validate_providers fl c.providers c.gateway c.model_pools ≡ []) ↔ AreValidProviders c
  unfolding validate_providers validate_model_pools
  providers_iff c =
      let names = map (λ p. p.name) c.providers in
      let models = map (λ p. p.model) c.providers in
      let aliases = c.gateway.model_aliases in
      let scan = scan_pools names models aliases no_pools_seen c.model_pools in
      let some_provider = (is_empty c.providers, "at least one provider must be configured") ∷ [] in
      let targets = target_checks (models ++ scan.0.seen_public_models) (Dict.values aliases) in
      let each = each_provider fl c.gateway [] c.providers in
      let split =
        append4-nil_iff (errors_of some_provider) scan.1 (errors_of targets) (errors_of each) in
      let pools_iff = scan_pools_iff names models aliases no_pools_seen c.model_pools in
      let own = each_provider_iff fl c.gateway [] c.providers in
      let distinct = Fresh-nil_iff names in
      let aimed : AreNext names models aliases no_pools_seen c.model_pools
          → All Passes targets ↔ All (IsAliasTarget models c.model_pools) (Dict.values aliases) =
        (λ v.
          let t =
            IsTarget-iff (models ++ push_all (public_names c.model_pools) [])
              (Dict.values aliases) in
          let s = same_targets models c.model_pools (Dict.values aliases) in
          rw (scan_pools_public names models aliases no_pools_seen c.model_pools v)
            ((λ h. s.0 (t.0 h)), (λ h. t.1 (s.1 h)))) in
      (
        (λ h.
            let (o, (p, (t, e))) = split.0 h in
            let v = pools_iff.0 p in
            let (vs, ns) = own.0 ((errors_of_iff each).0 e) in
            (
              ((errors_of_iff some_provider).0 o).0,
              (v, ((aimed v).0 ((errors_of_iff targets).0 t), (vs, distinct.0 ns))),
            )),
        (λ h.
            let (o, (v, (t, (vs, ns)))) = h in
            split.1 (
              (errors_of_iff some_provider).1 (o, tt),
              (
                pools_iff.1 v,
                (
                  (errors_of_iff targets).1 ((aimed v).1 t),
                  (errors_of_iff each).1 (own.1 (vs, distinct.1 ns)),
                ),
              ),
            )),
      )

  -- The checks of the sections other than the providers' and the pools'.
  abbrev AreValidSections : AppConfig fl.F64 → Type 0
  AreValidSections c =
      IsValidServer c.server
      × (IsValidGateway c.gateway
          × (IsValidTelemetry c.telemetry × (IsValidCache c.cache × IsValidStorage c.storage)))

  sections_iff :
      (c : AppConfig fl.F64)
      → All Passes (
          server_checks c.server
          ++ gateway_checks c.gateway
          ++ telemetry_checks fl c.telemetry
          ++ cache_checks fl c.cache
          ++ storage_checks c.storage)
        ↔ AreValidSections c
  sections_iff c = ground (
    arith,
    All-append_iff Passes
        (server_checks c.server
          ++ gateway_checks c.gateway
          ++ telemetry_checks fl c.telemetry
          ++ cache_checks fl c.cache)
        (storage_checks c.storage),
    All-append_iff Passes
        (server_checks c.server ++ gateway_checks c.gateway ++ telemetry_checks fl c.telemetry)
        (cache_checks fl c.cache),
    All-append_iff Passes (server_checks c.server ++ gateway_checks c.gateway)
        (telemetry_checks fl c.telemetry),
    All-append_iff Passes (server_checks c.server) (gateway_checks c.gateway),
    server_iff c.server,
    gateway_iff c.gateway,
    telemetry_iff c.telemetry,
    cache_iff c.cache,
    storage_iff c.storage,
  )

  -- A configuration is accepted exactly where it is valid: every section's values are in their
  -- ranges, the providers and the pools are well formed and have different names, every member of a
  -- pool is a provider, no public name is given twice, and every alias leads to a model or a pool.
  pub validate-IsValidConfig : (c : AppConfig fl.F64) → (validate fl c ≡ ok tt) ↔ IsValidConfig c
  unfolding validate all_errors
  validate-IsValidConfig c =
      let checks =
        server_checks c.server
        ++ gateway_checks c.gateway
        ++ telemetry_checks fl c.telemetry
        ++ cache_checks fl c.cache
        ++ storage_checks c.storage in
      let reported = report_iff (all_errors fl c) in
      let split =
        append-nil_iff (errors_of checks)
          (validate_providers fl c.providers c.gateway c.model_pools) in
      let passed = errors_of_iff checks in
      let sections = sections_iff c in
      let rest = providers_iff c in
      let pool_names = Fresh-nil_iff (map (λ pool. trim pool.name) c.model_pools) in
      let public = Fresh-nil_iff (public_names c.model_pools) in
      (
        (λ h.
            let (e, e') = split.0 (reported.0 h) in
            let (server, (gateway, (telemetry, (cache, storage)))) = sections.0 (passed.0 e) in
            let (some_provider, ((pools, (ns, ps)), (targets, (vs, names)))) = rest.0 e' in
            record {
              server = server;
              gateway = gateway;
              telemetry = telemetry;
              cache = cache;
              storage = storage;
              some_provider = some_provider;
              providers = vs;
              provider_names = names;
              pools = pools;
              pool_names = pool_names.0 ns;
              public_distinct = public.0 ps;
              targets = targets;
            }),
        (λ v. reported.1 (
            split.1 (
              passed.1 (sections.1 (v.server, (v.gateway, (v.telemetry, (v.cache, v.storage))))),
              rest.1 (
                v.some_provider,
                (
                  (v.pools, (pool_names.1 v.pool_names, public.1 v.public_distinct)),
                  (v.targets, (v.providers, v.provider_names)),
                ),
              ),
            ))),
      )
