-- ===== src/Pools/Resolve.antt =====
-- src/routing/model_pools.rs: which pool a public model name stands for.
use rustygate.Prelude.Dict
use rustygate.Prelude.Dict.{Dict}
use rustygate.Prelude.{
  Bool, String, ◌≡◌, ◌≢◌, refl, sym, ap, subst, ◌∙◌, inl, inr, Option, none, some, List, [], ◌∷◌,
  arith, All, contains, any, str_eq, str_eq_refl, str_eq_ne, str_eq_iff, if◌then◌else◌, Bool-cases,
  Option-cases,
}
use rustygate.Config.{ModelPoolConfig}
use rustygate.Pools.Names.{contains-public_ids}
use rustygate.Pools.{
  ModelPool, ModelPoolIndex, public_ids, pool_of_config, insert_ids, add_config, add_configs,
  from_configs, pool_for_public_model,
}

-- The pools have different names, which the check of the configuration demands.
abbrev pub HasDistinctNames : List ModelPoolConfig → Type 0
HasDistinctNames [] = Unit
HasDistinctNames (c ∷ cs) = All (λ d. d.name ≢ c.name) cs × HasDistinctNames cs

-- The public model id is the pool's name or one of its aliases.
abbrev pub claims : ModelPoolConfig → String → Bool
claims c model = contains (c.name ∷ c.aliases) model

-- The last configured pool that has `model` among its public names.
abbrev pub last_claiming :
    String → Option ModelPoolConfig → List ModelPoolConfig → Option ModelPoolConfig
last_claiming model acc [] = acc
last_claiming model acc (c ∷ cs) = last_claiming model (if claims c model then some c else acc) cs

abbrev pub pool_of : Option ModelPoolConfig → Option ModelPool
pool_of none = none
pool_of (some c) = some (pool_of_config c)

abbrev name_of : Option ModelPoolConfig → Option String
name_of none = none
name_of (some c) = some c.name

-- The pool that the last configuration of that name gives.
abbrev named : String → Option ModelPool → List ModelPoolConfig → Option ModelPool
named name acc [] = acc
named name acc (c ∷ cs) =
    named name (if str_eq c.name name then some (pool_of_config c) else acc) cs

get-insert_ids :
    (ids : List String) (name : String) (m : Dict String) (model : String)
    → Dict.get (insert_ids ids name m) model
      ≡ (if contains ids model then some name else Dict.get m model)
unfolding insert_ids contains any
get-insert_ids [] name m model = refl
get-insert_ids (i ∷ is) name m model =
    get-insert_ids is name (Dict.insert i name m) model
    ∙ ground (arith, Dict.get-insert i model name m, str_eq_iff i model, str_eq_iff model i)

get-public_id :
    (index : ModelPoolIndex) (cs : List ModelPoolConfig) (model : String)
    (acc : Option ModelPoolConfig)
    → Dict.get index.pool_by_public_model_id model ≡ name_of acc
    → Dict.get (add_configs index cs).pool_by_public_model_id model
      ≡ name_of (last_claiming model acc cs)
unfolding add_configs add_config
get-public_id index [] model acc h = h
get-public_id index (c ∷ cs) model acc h =
    get-public_id (add_config index c) cs model (if claims c model then some c else acc) (
      ground (
        arith,
        contains-public_ids c model,
        get-insert_ids (public_ids c) c.name index.pool_by_public_model_id model,
      ))

get-pool :
    (index : ModelPoolIndex) (cs : List ModelPoolConfig) (name : String)
    → Dict.get (add_configs index cs).pools_by_name name
      ≡ named name (Dict.get index.pools_by_name name) cs
unfolding add_configs add_config
get-pool index [] name = refl
get-pool index (c ∷ cs) name =
    get-pool (add_config index c) cs name
    ∙ ap (λ a. named name a cs) (Dict.get-insert c.name name (pool_of_config c) index.pools_by_name)

-- `g` holds the pools so far.
named-last_claiming :
    (cs : List ModelPoolConfig) (model : String) (acc : Option ModelPoolConfig)
    (g : String → Option ModelPool) (c : ModelPoolConfig)
    → HasDistinctNames cs
    → ((d : ModelPoolConfig) → acc ≡ some d → All (λ x. x.name ≢ d.name) cs)
    → ((d : ModelPoolConfig) → acc ≡ some d → g d.name ≡ some (pool_of_config d))
    → last_claiming model acc cs ≡ some c
    → named c.name (g c.name) cs ≡ some (pool_of_config c)
named-last_claiming [] model acc g c u fresh known e = known c e
named-last_claiming (x ∷ cs) model acc g c u fresh known e = elim (Bool-cases (claims x model)) [
  | inl claimed ↦
      named-last_claiming cs model (some x) g' c u.1
        (λ d e'. subst (λ (y : ModelPoolConfig). All (λ z. z.name ≢ y.name) cs) (same d e') u.0)
        (λ d e'.
          subst (λ (y : ModelPoolConfig). g' y.name ≡ some (pool_of_config y)) (same d e')
            (rw (str_eq_refl x.name) refl))
        (ap (λ b. last_claiming model (if b then some x else acc) cs) (sym claimed) ∙ e)
  | inr other ↦
      named-last_claiming cs model acc g' c u.1 (λ d e'. (fresh d e').1)
        (λ d e'. rw (str_eq_ne x.name d.name (fresh d e').0) (known d e'))
        (ap (λ b. last_claiming model (if b then some x else acc) cs) (sym other) ∙ e)
]
  where
    same : (d : ModelPoolConfig) → some x ≡ some d → x ≡ d
    same d e' = cc

    g' : String → Option ModelPool
    g' n = if str_eq x.name n then some (pool_of_config x) else g n

-- Where the pools have different names, a public model name stands for the pool of the last
-- configuration that has it as its name or among its aliases, and for no pool where none has it.
pub pool_for_public_model-from_configs :
    (cs : List ModelPoolConfig) (model : String)
    → HasDistinctNames cs
    → pool_for_public_model (from_configs cs) model ≡ pool_of (last_claiming model none cs)
unfolding pool_for_public_model from_configs Dict.get
pool_for_public_model-from_configs cs model u =
    let empty : ModelPoolIndex = record { pools_by_name = []; pool_by_public_model_id = [] } in
    let id = get-public_id empty cs model none refl in
    elim (Option-cases (last_claiming model none cs)) [
      | inl e ↦ rw e (rw (id ∙ ap name_of e, pool_for_public_model) refl)
      | inr (c, e) ↦ rw e (
          rw (id ∙ ap name_of e, pool_for_public_model)
            (get-pool empty cs c.name
              ∙ named-last_claiming cs model none (λ n. none) c u (λ d e'. cc) (λ d e'. cc) e))
    ]
