-- ===== src/Config/Accepted.antt =====
-- src/config.rs and src/routing/model_pools.rs: in an accepted configuration a public model name leads to
-- the one pool that has it.
use rustygate.Prelude.{
  String, ◌≡◌, ◌≢◌, refl, ◌⊎◌, sym, ap, ◌∙◌, inl, inr, true, false, Option, none, some, List, [],
  ◌∷◌, ◌++◌, map, arith, All, contains, str_eq, str_eq_iff, Bool-cases, if◌then◌else◌, ok,
}
use rustygate.Text.{trim}
use rustygate.Float.{Float}
use rustygate.Config.{AppConfig, ModelPoolConfig}
use rustygate.Config.Validate.{validate}
use rustygate.Config.Fresh.{AreDistinct, contains-append}
use rustygate.Config.PoolSpec.{public_names, public_names_of}
use rustygate.Config.Valid.{validate-IsValidConfig}
use rustygate.Pools.{pool_of_config, from_configs, pool_for_public_model, public_ids}
use rustygate.Pools.Names.{contains-public_ids}
use rustygate.Pools.Resolve.{
  HasDistinctNames, claims, last_claiming, pool_of, pool_for_public_model-from_configs,
}

contains-trim :
    (xs : List String) (m : String) → contains xs m ≡ true → contains (map trim xs) (trim m) ≡ true
unfolding contains
contains-trim [] m h = h
contains-trim (x ∷ xs) m h = elim (Bool-cases (str_eq x m)) [
  | inl e ↦ ground (arith, str_eq_iff (trim x) (trim m), ap trim ((str_eq_iff x m).0 e))
  | inr e ↦ ground (arith, contains-trim xs m)
]

contains-none : (x : String) (zs : List String) → All (λ z. x ≢ z) zs → contains zs x ≡ false
unfolding contains
contains-none x [] h = refl
contains-none x (z ∷ zs) h = ground (arith, contains-none x zs h.1, str_eq_iff z x, h.0)

contains-apart :
    (xs ys : List String) (t : String)
    → AreDistinct (xs ++ ys)
    → contains xs t ≡ true
    → contains ys t ≡ false
unfolding contains
contains-apart [] ys t d h = cc
contains-apart (x ∷ xs) ys t d h = elim (Bool-cases (str_eq x t)) [
  | inl e ↦
      let same = (str_eq_iff x t).0 e in
      let none_left = contains-none x (xs ++ ys) d.0 in
      ground
        (arith, ap (λ (u : String). contains (xs ++ ys) u) same, none_left, contains-append xs ys t)
  | inr e ↦ contains-apart xs ys t d.1 (ground arith)
]

rest-AreDistinct : (xs ys : List String) → AreDistinct (xs ++ ys) → AreDistinct ys
rest-AreDistinct [] ys d = d
rest-AreDistinct (x ∷ xs) ys d = rest-AreDistinct xs ys d.1

names_differ :
    (c : ModelPoolConfig) (cs : List ModelPoolConfig)
    → All (λ y. trim c.name ≢ y) (map (λ pool. trim pool.name) cs)
    → All (λ d. d.name ≢ c.name) cs
names_differ c [] h = tt
names_differ c (d ∷ cs) h = ((λ e. h.0 (ap trim (sym e))), names_differ c cs h.1)

pools-HasDistinctNames :
    (cs : List ModelPoolConfig)
    → AreDistinct (map (λ pool. trim pool.name) cs)
    → HasDistinctNames cs
pools-HasDistinctNames [] d = tt
pools-HasDistinctNames (c ∷ cs) d = (names_differ c cs d.0, pools-HasDistinctNames cs d.1)

claims-trim :
    (c : ModelPoolConfig) (m : String)
    → claims c m ≡ true
    → contains (public_names_of c) (trim m) ≡ true
claims-trim c m h = contains-trim (c.name ∷ c.aliases) m h

claimed_by_none :
    (cs : List ModelPoolConfig) (m : String) (acc : Option ModelPoolConfig)
    → contains (public_names cs) (trim m) ≡ false
    → last_claiming m acc cs ≡ acc
claimed_by_none [] m acc h = refl
claimed_by_none (c ∷ cs) m acc h =
    let split = contains-append (public_names_of c) (public_names cs) (trim m) in
    elim (Bool-cases (claims c m)) [
      | inl e ↦ absurd (ground (arith, split, h, claims-trim c m e))
      | inr e ↦ rw e (claimed_by_none cs m acc (ground (arith, split, h)))
    ]
  where
    absurd : true ≡ false → last_claiming m acc (c ∷ cs) ≡ acc
    absurd e = cc

-- A pool of the list.
abbrev pub IsAmong : ModelPoolConfig → List ModelPoolConfig → Type 0
IsAmong p [] = ⊥
IsAmong p (c ∷ cs) = (c ≡ p) ⊎ IsAmong p cs

claimed_by :
    (cs : List ModelPoolConfig) (p : ModelPoolConfig) (m : String) (acc : Option ModelPoolConfig)
    → AreDistinct (public_names cs)
    → IsAmong p cs
    → claims p m ≡ true
    → last_claiming m acc cs ≡ some p
claimed_by [] p m acc d i h = elim i [ ]
claimed_by (c ∷ cs) p m acc d (inl e) h =
    let here : claims c m ≡ true = ap (λ (x : ModelPoolConfig). claims x m) e ∙ h in
    rw here (
      claimed_by_none cs m (some c)
        (contains-apart (public_names_of c) (public_names cs) (trim m) d (claims-trim c m here))
      ∙ ap (λ (x : ModelPoolConfig). some x) e)
claimed_by (c ∷ cs) p m acc d (inr i) h =
    claimed_by cs p m (if claims c m then some c else acc)
      (rest-AreDistinct (public_names_of c) (public_names cs) d) i h

module _ (fl : Float) where
  -- Where the check accepts the configuration, each public name of a pool, its own or an alias, leads to
  -- that pool.
  pub validate-pool_for_public_model :
      (c : AppConfig fl.F64) (p : ModelPoolConfig) (m : String)
      → validate fl c ≡ ok tt
      → IsAmong p c.model_pools
      → contains (public_ids p) m ≡ true
      → pool_for_public_model (from_configs c.model_pools) m ≡ some (pool_of_config p)
  validate-pool_for_public_model c p m accepted i h =
      let v = (validate-IsValidConfig fl c).0 accepted in
      pool_for_public_model-from_configs c.model_pools m
        (pools-HasDistinctNames c.model_pools v.pool_names)
      ∙ ap pool_of (
          claimed_by c.model_pools p m none v.public_distinct i (sym (contains-public_ids p m) ∙ h))
