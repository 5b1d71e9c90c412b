-- ===== src/Config/PoolSpec.antt =====
-- src/config.rs: what a valid list of model pools is, without reference to the scan.
use rustygate.Prelude.Dict
use rustygate.Prelude.Dict.{Dict}
use rustygate.Prelude.{
  String, ◌≡◌, refl, ◌↔◌, inl, inr, true, false, List, [], ◌∷◌, ◌++◌, map, arith, All, Bool-cases,
  contains, is_empty,
}
use rustygate.Text.{trim, is_blank}
use rustygate.Config.{ModelPoolConfig}
use rustygate.Config.Sections.{errors_of, is_some_zero}
use rustygate.Config.PoolScan.{
  member_errors, conflict_checks, alias_errors, pool_message, in_quotes,
}
use rustygate.Config.Spec.{errors_of_iff}
use rustygate.Config.Fresh.{Fresh, push_all, append-nil_iff}

-- The names that a pool is asked by.
abbrev pub public_names_of : ModelPoolConfig → List String
public_names_of pool = trim pool.name ∷ map trim pool.aliases

abbrev pub public_names : List ModelPoolConfig → List String
public_names [] = []
public_names (pool ∷ pools) = public_names_of pool ++ public_names pools

module _ (provider_names provider_models : List String) (model_aliases : Dict String) where
  -- A name that neither a provider's model nor an alias of the gateway has.
  abbrev pub IsFree : String → Type 0
  IsFree name =
      (contains provider_models name ≡ false) × (Dict.contains_key model_aliases name ≡ false)

  abbrev pub IsPublicName : String → Type 0
  IsPublicName name = (is_blank name ≡ false) × IsFree (trim name)

  -- A member names a provider.
  abbrev pub IsMember : String → Type 0
  IsMember member = (is_blank member ≡ false) × (contains provider_names (trim member) ≡ true)

  pub record IsValidPool (pool : ModelPoolConfig) : Type 0 where
    pub named : IsPublicName pool.name
    pub some_member : is_empty pool.members ≡ false
    pub in_flight : is_some_zero pool.max_in_flight ≡ false
    pub members_known : All IsMember pool.members
    pub aliases_free : All IsPublicName pool.aliases

  pub member_errors_iff :
      (pool : String) (members : List String)
      → (member_errors provider_names provider_models model_aliases pool members ≡ [])
        ↔ All IsMember members
  unfolding member_errors
  member_errors_iff pool [] = ((λ h. tt), (λ h. refl))
  member_errors_iff pool (m ∷ ms) =
      let ih = member_errors_iff pool ms in ((λ h. ground (arith, ih)), (λ h. ground (arith, ih)))

  pub conflict_checks_iff :
      (seen : List String) (name subject : String)
      → (errors_of (conflict_checks provider_names provider_models model_aliases seen name subject)
          ≡ [])
        ↔ (IsFree name × (contains seen name ≡ false))
  unfolding conflict_checks
  conflict_checks_iff seen name subject =
      let k =
        errors_of_iff
          (conflict_checks provider_names provider_models model_aliases seen name subject) in
      ((λ h. let (a, (b, (c, _))) = k.0 h in ((a, b), c)), (λ h. k.1 (h.0.0, (h.0.1, (h.1, tt)))))

  pub alias_errors_iff :
      (pool : String) (seen aliases : List String)
      → ((alias_errors provider_names provider_models model_aliases pool seen aliases).1 ≡ [])
        ↔ (All IsPublicName aliases × Fresh seen (map trim aliases))
  unfolding alias_errors
  alias_errors_iff pool seen [] = ((λ h. (tt, tt)), (λ h. refl))
  alias_errors_iff pool seen (a ∷ rest) =
      let ih = alias_errors_iff pool (trim a ∷ seen) rest in
      let subject = pool_message pool (in_quotes " alias " (trim a) "") in
      let here = conflict_checks_iff seen (trim a) subject in
      let both =
        append-nil_iff
          (errors_of
            (conflict_checks provider_names provider_models model_aliases seen (trim a) subject))
          (alias_errors provider_names provider_models model_aliases pool (trim a ∷ seen) rest).1 in
      elim (Bool-cases (is_blank a)) [
        | inl b ↦ ((λ h. ground arith), (λ h. ground arith))
        | inr b ↦ ((λ h. ground (arith, here, both, ih)), (λ h. ground (arith, here, both, ih)))
      ]

  pub alias_errors_seen :
      (pool : String) (seen aliases : List String)
      → All IsPublicName aliases
      → (alias_errors provider_names provider_models model_aliases pool seen aliases).0
        ≡ push_all (map trim aliases) seen
  unfolding alias_errors
  alias_errors_seen pool seen [] v = refl
  alias_errors_seen pool seen (a ∷ rest) v =
      rw (v.0.0) (alias_errors_seen pool (trim a ∷ seen) rest v.1)
