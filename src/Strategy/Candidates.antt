-- ===== src/Strategy/Candidates.antt =====
-- src/routing/strategy.rs: the providers that may serve a model, in a policy's order, and the ways
-- in which prefix affinity reorders them.
use rustygate.Prelude.Dict
use rustygate.Prelude.Dict.{Dict}
use rustygate.Prelude.Order.{then_with, str_cmp}
use rustygate.Prelude.Sort.{sort_by}
use rustygate.Prelude.{
  ℕ, ◌+◌, String, Bool, true, false, not, Option, none, some, List, [], ◌∷◌, ◌++◌, str_eq, select,
  contains, unwrap_or,
}
use Prim.Native.Nat.{compare, Ordering}
use Prim.Native.Nat.Ordering.{lt, eq, gt}
use rustygate.Float.{Float}
use rustygate.Config.{RoutingPolicy, priority, cost, latency, prefix_affinity}
use rustygate.Provider.{ProviderEntry}
use rustygate.Pools.{ModelPool, ModelPoolIndex, pool_for_public_model}
use rustygate.Resilience.{ResilienceRegistry}
use rustygate.Strategy.Scores.{
  MetricsSnapshot, name_of, provider_cost, provider_latency_score, is_open_circuit, load_score,
}

abbrev policy_of : Option ModelPool → Option RoutingPolicy
policy_of none = none
policy_of (some pool) = pool.routing_policy

unfoldable pub effective_routing_policy :
    Option String → RoutingPolicy → ModelPoolIndex → RoutingPolicy
effective_routing_policy none routing_policy model_pools = routing_policy
effective_routing_policy (some model) routing_policy model_pools =
    unwrap_or (policy_of (pool_for_public_model model_pools model)) routing_policy

unfoldable pub resolve_model_alias : Dict String → String → String
resolve_model_alias aliases requested_model = Dict.get_or aliases requested_model requested_model

-- `bool::cmp`: false is less than true.
abbrev pub bool_cmp : Bool → Bool → Ordering
bool_cmp false false = eq
bool_cmp false true = lt
bool_cmp true false = gt
bool_cmp true true = eq

module _ (fl : Float) where
  -- The end of every comparison: the priority, then the name.
  abbrev pub rank_cmp : ProviderEntry fl → ProviderEntry fl → Ordering
  rank_cmp left right =
      then_with (compare left.priority right.priority)
        (str_cmp (name_of fl left) (name_of fl right))

  -- The filter of `candidate_providers_for_policy`.
  unfoldable pub serves : Option ModelPool → String → ProviderEntry fl → Bool
  serves (some pool) requested_model entry = contains pool.members (name_of fl entry)
  serves none requested_model entry = entry.provider.supports_model requested_model

  unfoldable pub policy_cmp :
      RoutingPolicy
      → Option (MetricsSnapshot fl)
      → Option ResilienceRegistry
      → ProviderEntry fl
      → ProviderEntry fl
      → Ordering
  policy_cmp priority metrics_snapshot resilience left right = rank_cmp left right
  policy_cmp cost metrics_snapshot resilience left right =
      then_with (fl.total_cmp (provider_cost fl left) (provider_cost fl right))
        (rank_cmp left right)
  policy_cmp latency metrics_snapshot resilience left right =
      then_with
        (fl.total_cmp (provider_latency_score fl left metrics_snapshot resilience)
          (provider_latency_score fl right metrics_snapshot resilience))
        (rank_cmp left right)
  policy_cmp prefix_affinity metrics_snapshot resilience left right = rank_cmp left right

  unfoldable pub candidate_providers_for_policy :
      List (ProviderEntry fl)
      → Option String
      → RoutingPolicy
      → Option (MetricsSnapshot fl)
      → ModelPoolIndex
      → Option ResilienceRegistry
      → List (ProviderEntry fl)
  candidate_providers_for_policy providers none policy metrics_snapshot model_pools resilience = []
  candidate_providers_for_policy providers (some model) policy metrics_snapshot pools resilience =
      sort_by (policy_cmp policy metrics_snapshot resilience)
        (select (serves (pool_for_public_model pools model) model) providers)

  unfoldable pub candidate_providers :
      List (ProviderEntry fl)
      → Option String
      → RoutingPolicy
      → Option (MetricsSnapshot fl)
      → ModelPoolIndex
      → Option ResilienceRegistry
      → List (ProviderEntry fl)
  candidate_providers providers requested_model routing_policy metrics_snapshot pools resilience =
      candidate_providers_for_policy providers requested_model
        (effective_routing_policy requested_model routing_policy pools) metrics_snapshot pools
        resilience

  abbrev pub first : List (ProviderEntry fl) → Option (ProviderEntry fl)
  first [] = none
  first (x ∷ xs) = some x

  unfoldable pub select_provider :
      List (ProviderEntry fl) → Option String → ModelPoolIndex → Option (ProviderEntry fl)
  select_provider providers requested_model model_pools =
      first (candidate_providers providers requested_model priority none model_pools none)

  -- The loop fills `preferred` and `rest`.
  unfoldable pub move_provider_to_front : List (ProviderEntry fl) → String → List (ProviderEntry fl)
  move_provider_to_front candidates provider_name =
      select (λ c. str_eq (name_of fl c) provider_name) candidates
      ++ select (λ c. not (str_eq (name_of fl c) provider_name)) candidates

  abbrev pub open_cmp : Option ResilienceRegistry → ProviderEntry fl → ProviderEntry fl → Ordering
  open_cmp resilience left right =
      then_with
        (bool_cmp (is_open_circuit fl left resilience) (is_open_circuit fl right resilience))
        (rank_cmp left right)

  unfoldable pub order_open_circuits_last :
      List (ProviderEntry fl) → Option ResilienceRegistry → List (ProviderEntry fl)
  order_open_circuits_last candidates resilience = sort_by (open_cmp resilience) candidates

  -- `enumerate` collected into a map: a repeated name keeps its last position.
  unfoldable pub positions_from : ℕ → List (ProviderEntry fl) → Dict ℕ → Dict ℕ
  positions_from i [] m = m
  positions_from i (c ∷ cs) m = positions_from (i + 1) cs (Dict.insert (name_of fl c) i m)

  -- Each name that is looked up is a key of `positions`.
  abbrev pub load_cmp :
      Dict ℕ
      → Option (MetricsSnapshot fl)
      → Option ResilienceRegistry
      → ProviderEntry fl
      → ProviderEntry fl
      → Ordering
  load_cmp positions metrics_snapshot resilience left right =
      then_with
        (compare (load_score fl left metrics_snapshot resilience)
          (load_score fl right metrics_snapshot resilience))
        (then_with
          (compare (Dict.get_or positions (name_of fl left) 0)
            (Dict.get_or positions (name_of fl right) 0))
          (str_cmp (name_of fl left) (name_of fl right)))

  unfoldable pub order_by_load_then_baseline :
      List (ProviderEntry fl)
      → Option (MetricsSnapshot fl)
      → Option ResilienceRegistry
      → List (ProviderEntry fl)
  order_by_load_then_baseline candidates metrics_snapshot resilience =
      sort_by (load_cmp (positions_from 0 candidates []) metrics_snapshot resilience) candidates
