-- ===== src/Lib.antt =====
-- RustyGate, a gateway in front of providers of language models: its guards and its routing core.
--
-- A request passes the layers of src/app/router.rs: a global rate, the check of its API key and of the
-- key's role, quota and rate. A chat request is then checked (src/models/chat.rs), admitted
-- (src/routing/admission.rs) and routed (src/routing/strategy.rs): the configured providers that may serve the model are put in an order that
-- the routing policy, the metrics, the circuit breakers and the recorded prompt prefixes decide. Then
-- src/routing/fallback.rs calls them one after the other, with retries, until one answers; each call
-- goes through the circuit breaker (src/routing/resilience.rs) and takes a slot of the provider.
--
-- Files. Each module's name follows the part that it models.
--   Errors        src/error.rs and ProviderError of src/providers/provider.rs
--   Chat          src/models/chat.rs: requests, responses; Chat/Validate is ChatCompletionRequest::validate
--   Config        src/config.rs: the types, their defaults and AppConfig::validate (Sections, PoolScan,
--                 Providers, Validate); Spec, PoolSpec, ProviderSpec and Valid say what is valid,
--                 Accepted what that means for the index of Pools
--   Tokens        src/telemetry/token_estimator.rs
--   Provider      src/providers/provider.rs: ProviderEntry, pricing and cost
--   Pools         src/routing/model_pools.rs
--   Affinity      src/routing/prefix_affinity.rs over the cache of Lru/Interface
--   Resilience    src/routing/resilience.rs; Resilience/Breaker is one provider's circuit
--   Admission     src/routing/admission.rs
--   Metrics       src/telemetry/metrics.rs: the registry and the counters of routing; Requests has what is
--                 recorded of requests, attempts and streams, Snapshot the figures that are shown
--   Strategy      src/routing/strategy.rs: Scores (costs, latency, load), Candidates (filter, sort and
--                 reordering), Selection (candidate_providers_with_affinity)
--   Fallback      src/routing/fallback.rs: Attempt (errors and back-off), World (what requests
--                 share), Retry (the attempts of one candidate), Chat (complete_chat)
--   RateLimit     src/rate_limit.rs: the token buckets and the local limiter; Requests has the two checks
--                 of a request, Payments the joint check
--   Auth          src/auth/keys.rs: roles, keys, quotas and the key stores; the table api_keys is the list
--                 of its rows
--   Middleware    src/app/middleware.rs and the layers of src/app/router.rs
--   Sse           src/providers/sse.rs: the parser of server-sent events
--   Health        src/routing/health.rs
--   Fingerprint   src/routing/prefix_fingerprint.rs
-- Prelude, Text and Float hold what these share: tests, machine integers, lists, a stable sort, maps as
-- association lists, texts, and the interface of floating point numbers.
--
-- State and operations. A method of a registry behind a mutex is a function from the registry to the
-- new one; a poisoned lock is not modelled. A clock reading is an argument, in nanoseconds. A BTreeMap is
-- an association list in the order of its keys. A u32 or u64 is a natural number whose wrap or
-- saturation is written out. complete_chat runs on a World of all registries that requests share; the
-- two calls it awaits are parameters that return the world after them, in which other requests may have
-- changed anything; what runs between two awaits is taken to run without interruption. In
-- strategy.rs a chain of early returns is a chain of functions, one for each.
--
-- Bounds and fuel. The loops over retries and candidates are recursion on the number of retries left
-- and on the list of candidates. The loop of the event parser runs on fuel, one more than the buffer has
-- characters: each turn that goes on takes two characters from the buffer.
--
-- Not modelled. The crates: floating point numbers (Float), lru (Lru/Interface), SHA-256, UUIDs, the
-- password hash, the conversions of durations and the JSON of a tool's schema are parameters, with the
-- documented laws where a theorem needs them, and so is the query for the usage of a key; the table of
-- keys is a list of rows. RateLimiter::check is modelled, but the layers call check_global and
-- check_key_with_override. In Strategy
-- and Fallback the fingerprint of a request is an argument. Streaming of answers, the Redis limiter,
-- the caches, HTTP routes and clients, storage and exporters are left out.
pub mod Prelude
pub mod Text
pub mod Float
pub mod Errors
pub mod Chat
pub mod Config
pub mod Tokens
pub mod Provider
pub mod Pools
pub mod Lru
pub mod Affinity
pub mod Resilience
pub mod Admission
pub mod Strategy
pub mod Metrics
pub mod Fallback
pub mod Sse
pub mod RateLimit
pub mod Auth
pub mod Middleware
pub mod Health
pub mod Fingerprint
