-- ===== src/Strategy/Tests.antt =====
-- src/routing/strategy.rs: runs of the selection, and its theorems at concrete inputs.
use mathlib.Core.List.{Perm}
use rustygate.Prelude.{ℕ, String, Option, none, some, List, [], ◌∷◌, str_eq}
use rustygate.Config.{priority, cost, prefix_affinity, default_prefix_affinity_config}
use rustygate.Prelude.Dict.{str_lt}
use rustygate.Prelude.{◌≡◌, refl, is_empty, select, any, all, contains}
use rustygate.Prelude.Order.{str_cmp}
use rustygate.Prelude.Sort.{insert_by}
use rustygate.Prelude.Sort.{sort_by}
use rustygate.Prelude.Dict
use rustygate.Pools.{
  add_configs, add_config, pool_of_config, public_ids, sorted_set, dedup, insert_ids,
  pool_for_public_model,
}
use rustygate.Affinity.{lookup}
use rustygate.Strategy.Scores.{
  is_open_circuit, provider_has_recent_errors, load_within_threshold, provider_latency_score,
  provider_latency_ms, add_load, add_circuit,
}
use rustygate.Strategy.Chosen.{LeadsHealthy, selection-LeadsHealthy}
use rustygate.Strategy.Selection.{
  select_by_affinity, select_in_pool, is_high_confidence, select_with_fingerprint, select_by_prefix,
  select_recorded, select_previous,
}
use rustygate.Strategy.Candidates.{effective_routing_policy, serves}
use rustygate.Float.Model.{nat_float}
use rustygate.Provider.{ProviderEntry}
use rustygate.Pools.{ModelPoolIndex, from_configs}
use rustygate.Lru.Model.{list_lru}
use rustygate.Affinity.{PrefixAffinityEntry, PrefixAffinityIndex, new, remember}
use rustygate.Strategy.Candidates.{candidate_providers_for_policy, policy_cmp}
use rustygate.Strategy.Selection.{
  PrefixFingerprintResult, high, candidate_providers_with_affinity, PrefixAffinityRouting,
}
use rustygate.Strategy.Permutes.{selection-perm, eligible}
use rustygate.Strategy.Sorted.{FollowsPolicy, candidates-FollowsPolicy}

abbrev pub entry : ℕ → String → ℕ → ProviderEntry nat_float
entry rank name price = record {
  priority = rank;
  provider = record { name = name; model = "m"; supports_model = λ m. str_eq m "m" };
  pricing = record { cost_per_1k_input_tokens = price; cost_per_1k_output_tokens = price };
}

abbrev pub providers : List (ProviderEntry nat_float)
providers = entry 2 "east" 1 ∷ entry 1 "west" 5 ∷ []

abbrev pub pools : ModelPoolIndex
pools = from_configs (
    record {
      name = "chat";
      aliases = "gpt" ∷ [];
      routing_policy = some prefix_affinity;
      members = "east" ∷ "west" ∷ [];
      max_in_flight = none;
    }
    ∷ [])

-- A digest that tells texts of different length apart is enough here.
abbrev pub digest : String → ℕ
digest text = 7

abbrev pub index : PrefixAffinityIndex (list_lru PrefixAffinityEntry)
index =
    remember (list_lru PrefixAffinityEntry)
      (new (list_lru PrefixAffinityEntry) default_prefix_affinity_config) "aa" "east" 5

abbrev pub fingerprint : PrefixFingerprintResult
fingerprint = record {
  fingerprint = some "aa";
  confidence = high;
  prefix_char_length = 20;
  prefix_token_estimate = 5;
}

abbrev affinity : Option (PrefixAffinityRouting nat_float digest (list_lru PrefixAffinityEntry))
affinity =
    some
      (record { index = index; config = default_prefix_affinity_config; fingerprint = fingerprint })

selection-perm_example :
    Perm
      (candidate_providers_with_affinity nat_float digest
        (list_lru PrefixAffinityEntry)
        providers
        none
        pools
        none
        (some "gpt")
        priority
        affinity
        9).0.candidates
      (eligible nat_float providers pools (some "gpt"))
selection-perm_example =
    selection-perm nat_float digest (list_lru PrefixAffinityEntry) providers none pools none
      (some "gpt") priority affinity 9

candidates-FollowsPolicy_example :
    FollowsPolicy nat_float cost none none
      (candidate_providers_for_policy nat_float providers (some "m") cost none pools none)
candidates-FollowsPolicy_example =
    candidates-FollowsPolicy nat_float providers (some "m") cost none pools none

-- The index holds "east" for the prefix: a hit.
is_hit :
    (candidate_providers_with_affinity nat_float digest
      (list_lru PrefixAffinityEntry)
      providers
      none
      pools
      none
      (some "gpt")
      priority
      affinity
      9).0.reason
    ≡ "prefix_hit"
unfolding candidate_providers_with_affinity effective_routing_policy pool_for_public_model
    from_configs add_configs add_config pool_of_config public_ids sorted_set dedup sort_by insert_by
    str_cmp insert_ids Dict.insert Dict.get Dict.remove str_eq str_lt select_by_affinity
    select_in_pool is_high_confidence select_with_fingerprint select_by_prefix select_recorded
    select_previous candidate_providers_for_policy serves contains any all select policy_cmp
    is_open_circuit lookup remember new list_lru is_empty provider_has_recent_errors
    load_within_threshold provider_latency_score provider_latency_ms add_load add_circuit
is_hit = refl

selection-LeadsHealthy_example :
    LeadsHealthy nat_float digest
      (list_lru PrefixAffinityEntry)
      providers
      none
      pools
      none
      (candidate_providers_with_affinity nat_float digest
        (list_lru PrefixAffinityEntry)
        providers
        none
        pools
        none
        (some "gpt")
        priority
        affinity
        9).0.candidates
selection-LeadsHealthy_example =
    selection-LeadsHealthy nat_float digest (list_lru PrefixAffinityEntry) providers none pools none
      (some "gpt") priority affinity 9 is_hit
