-- ===== src/Pools.antt =====
-- src/routing/model_pools.rs: the index from public model names to pools of providers.
pub mod Names
pub mod Resolve
mod Tests
use rustygate.Prelude.Dict
use rustygate.Prelude.Dict.{Dict}
use rustygate.Prelude.Sort.{sort_by}
use rustygate.Prelude.Order.{str_cmp}
use rustygate.Prelude.{
  String, Bool, Option, none, some, List, [], ◌∷◌, str_eq, if◌then◌else◌, not, select, contains,
  any, is_empty,
}
use rustygate.Config.{ModelPoolConfig, RoutingPolicy}

pub record ModelPool : Type 0 where
  pub name : String
  pub public_model_ids : List String
  pub routing_policy : Option RoutingPolicy
  pub members : List String  -- BTreeSet: ascending and without repetition

pub record ModelPoolIndex : Type 0 where
  pub pools_by_name : Dict ModelPool
  pub pool_by_public_model_id : Dict String

-- `Vec::dedup` on texts
unfoldable pub dedup : List String → List String
unfolding str_eq
dedup [] = []
dedup (x ∷ []) = x ∷ []
dedup (x ∷ y ∷ ys) = let rest = dedup (y ∷ ys) in if str_eq x y then rest else x ∷ rest

-- `sort(); dedup()`, which is also what collecting into a `BTreeSet` gives.
unfoldable pub sorted_set : List String → List String
unfolding sort_by str_cmp dedup
sorted_set xs = dedup (sort_by str_cmp xs)

unfoldable pub public_ids : ModelPoolConfig → List String
unfolding select str_eq sorted_set
public_ids c = sorted_set (c.name ∷ select (λ alias. not (str_eq alias c.name)) c.aliases)

unfoldable pub pool_of_config : ModelPoolConfig → ModelPool
unfolding public_ids
pool_of_config c = record {
  name = c.name;
  public_model_ids = public_ids c;
  routing_policy = c.routing_policy;
  members = sorted_set c.members;
}

-- The loop over a pool's public ids.
unfoldable pub insert_ids : List String → String → Dict String → Dict String
insert_ids [] name m = m
insert_ids (i ∷ is) name m = insert_ids is name (Dict.insert i name m)

unfoldable pub add_config : ModelPoolIndex → ModelPoolConfig → ModelPoolIndex
unfolding pool_of_config insert_ids
add_config index c = record {
  pools_by_name = Dict.insert c.name (pool_of_config c) index.pools_by_name;
  pool_by_public_model_id = insert_ids (public_ids c) c.name index.pool_by_public_model_id;
}

unfoldable pub add_configs : ModelPoolIndex → List ModelPoolConfig → ModelPoolIndex
add_configs index [] = index
add_configs index (c ∷ cs) = add_configs (add_config index c) cs

unfoldable pub from_configs : List ModelPoolConfig → ModelPoolIndex
unfolding add_configs add_config
from_configs = add_configs (record { pools_by_name = []; pool_by_public_model_id = [] })

unfoldable pub pool_for_public_model : ModelPoolIndex → String → Option ModelPool
pool_for_public_model index model = elim (Dict.get index.pool_by_public_model_id model) [
  | none ↦ none
  | some pool_name ↦ Dict.get index.pools_by_name pool_name
]

unfoldable pub public_model_ids : ModelPoolIndex → List String
public_model_ids index = Dict.keys index.pool_by_public_model_id

unfoldable pub is_provider_in_any_pool : ModelPoolIndex → String → Bool
unfolding any contains
is_provider_in_any_pool index provider_name =
    any (λ p. contains p.members provider_name) (Dict.values index.pools_by_name)

unfoldable pub no_pools : ModelPoolIndex → Bool
unfolding is_empty
no_pools index = is_empty index.pools_by_name

abbrev pool_members : Option ModelPool → Option (List String)
pool_members none = none
pool_members (some p) = some p.members

unfoldable pub members_for_public_model : ModelPoolIndex → String → Option (List String)
unfolding pool_for_public_model
members_for_public_model index model = pool_members (pool_for_public_model index model)

abbrev sorted_members : Option (List String) → Option (List String)
sorted_members none = none
sorted_members (some ms) = some (sort_by str_cmp ms)

unfoldable pub providers_for_model_id : ModelPoolIndex → String → Option (List String)
unfolding members_for_public_model sort_by str_cmp
providers_for_model_id index model = sorted_members (members_for_public_model index model)
