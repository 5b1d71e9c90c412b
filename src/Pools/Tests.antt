-- ===== src/Pools/Tests.antt =====
-- src/routing/model_pools.rs: concrete indexes.
use mathlib.Core.Bool.{true≢false}
use rustygate.Prelude.{ap, str_eq, String, ◌≡◌, ◌≢◌, none, List, [], ◌∷◌}
use rustygate.Config.{ModelPoolConfig}
use rustygate.Pools.{from_configs, pool_for_public_model}
use rustygate.Pools.Resolve.{
  HasDistinctNames, last_claiming, pool_of, pool_for_public_model-from_configs,
}

abbrev pool : String → List String → ModelPoolConfig
pool name aliases = record {
  name = name;
  aliases = aliases;
  routing_policy = none;
  members = "east" ∷ [];
  max_in_flight = none;
}

abbrev configs : List ModelPoolConfig
configs = pool "fast" ("small" ∷ []) ∷ pool "slow" ("large" ∷ "small" ∷ []) ∷ []

slow_is_not_fast : ◌≢◌ {A = String} "slow" "fast"
unfolding str_eq
slow_is_not_fast e = true≢false (ap (str_eq "slow") e)

configs-HasDistinctNames : HasDistinctNames configs
configs-HasDistinctNames = ((slow_is_not_fast, tt), (tt, tt))

pool_for_public_model-from_configs_example :
    pool_for_public_model (from_configs configs) "small"
    ≡ pool_of (last_claiming "small" none configs)
pool_for_public_model-from_configs_example =
    pool_for_public_model-from_configs configs "small" configs-HasDistinctNames
