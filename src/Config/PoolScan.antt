-- ===== src/Config/PoolScan.antt =====
-- src/config.rs: `validate_model_pools`. A set is the list of its elements.
use Prim.Native.String.{◌++◌ as text_append}
use rustygate.Prelude.Dict
use rustygate.Prelude.Dict.{Dict}
use rustygate.Prelude.{String, List, [], ◌∷◌, ◌++◌, if◌then◌else◌, is_empty, contains}
use rustygate.Text.{trim, is_blank}
use rustygate.Config.{ModelPoolConfig}
use rustygate.Config.Sections.{Check, errors_of, is_some_zero}

-- The sets that the loop fills. `public_models` is filled together with `seen_public_models`.
pub record PoolScan : Type 0 where
  pub seen_pool_names : List String
  pub seen_public_models : List String

abbrev pub no_pools_seen : PoolScan
no_pools_seen = record { seen_pool_names = []; seen_public_models = [] }

-- "model pool `{pool_name}`" and the rest of a message about it
abbrev pub pool_message : String → String → String
pool_message pool_name rest =
    text_append "model pool `" (text_append pool_name (text_append "`" rest))

abbrev pub in_quotes : String → String → String → String
in_quotes before text after =
    text_append before (text_append "`" (text_append text (text_append "`" after)))

module _ (provider_names provider_models : List String) (model_aliases : Dict String) where
  -- The loop over the members.
  unfoldable pub member_errors : String → List String → List String
  member_errors pool_name [] = []
  member_errors pool_name (member ∷ members) =
      let member_name = trim member in
      let rest = member_errors pool_name members in
      if is_blank member
      then pool_message pool_name " must not contain empty member names" ∷ rest
      else if contains provider_names member_name
      then rest
      else pool_message pool_name
          (in_quotes " member " member_name " must reference a configured provider")
        ∷ rest

  -- The checks of a public name, which is `alias_name` of the pool or the pool's own name.
  unfoldable pub conflict_checks : List String → String → String → List Check
  unfolding contains
  conflict_checks seen model subject =
      (
        contains provider_models model,
        text_append subject (in_quotes " conflicts with configured provider model " model ""),
      )
      ∷ (
        Dict.contains_key model_aliases model,
        text_append subject (in_quotes " conflicts with gateway.model_aliases key " model ""),
      )
      ∷ (
        contains seen model,
        text_append "model pool public model ID `"
            (text_append model "` is defined more than once"),
      )
      ∷ []

  -- The loop over the aliases, with the public names seen so far.
  unfoldable pub alias_errors : String → List String → List String → List String × List String
  unfolding conflict_checks
  alias_errors pool_name seen [] = (seen, [])
  alias_errors pool_name seen (alias ∷ aliases) =
      let alias_name = trim alias in
      let skipped = alias_errors pool_name seen aliases in
      let checked = alias_errors pool_name (alias_name ∷ seen) aliases in
      if is_blank alias
      then (skipped.0, pool_message pool_name " must not contain empty aliases" ∷ skipped.1)
      else (
        checked.0,
        errors_of (
              conflict_checks seen alias_name
                (pool_message pool_name (in_quotes " alias " alias_name "")))
            ++ checked.1,
      )

  -- The body of the loop over the pools, past its two `continue`s.
  unfoldable pub pool_body : PoolScan → ModelPoolConfig → PoolScan × List String
  unfolding conflict_checks member_errors alias_errors
  pool_body scan pool =
      let pool_name = trim pool.name in
      let (seen, aliased) =
        alias_errors pool_name (pool_name ∷ scan.seen_public_models) pool.aliases in
      (
        record { seen_pool_names = pool_name ∷ scan.seen_pool_names; seen_public_models = seen },
        errors_of (conflict_checks scan.seen_public_models pool_name (pool_message pool_name ""))
            ++ errors_of (
                (
                  is_empty pool.members,
                  pool_message pool_name " must include at least one member provider",
                )
                ∷ (
                  is_some_zero pool.max_in_flight,
                  pool_message pool_name " max_in_flight must be greater than 0",
                )
                ∷ [])
            ++ member_errors pool_name pool.members
            ++ aliased,
      )

  unfoldable pub scan_pool : PoolScan → ModelPoolConfig → PoolScan × List String
  unfolding pool_body contains
  scan_pool scan pool =
      if is_blank pool.name
      then (scan, "model_pools entries must have a non-empty name" ∷ [])
      else if contains scan.seen_pool_names (trim pool.name)
      then (scan, text_append "duplicate model pool name `" (text_append (trim pool.name) "`") ∷ [])
      else pool_body scan pool

  unfoldable pub scan_pools : PoolScan → List ModelPoolConfig → PoolScan × List String
  unfolding scan_pool
  scan_pools scan [] = (scan, [])
  scan_pools scan (pool ∷ pools) =
      let (scan', errors) = scan_pool scan pool in
      let (scan'', more) = scan_pools scan' pools in (scan'', errors ++ more)

  -- The public names, and the errors.
  unfoldable pub validate_model_pools : List ModelPoolConfig → List String × List String
  unfolding scan_pools
  validate_model_pools pools =
      let (scan, errors) = scan_pools no_pools_seen pools in (scan.seen_public_models, errors)
