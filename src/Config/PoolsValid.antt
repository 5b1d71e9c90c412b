-- ===== src/Config/PoolsValid.antt =====
-- src/config.rs: the scan of the model pools passes exactly the valid lists of pools.
use rustygate.Prelude.Dict.{Dict}
use rustygate.Prelude.{
  String, ◌≡◌, refl, ap, ◌↔◌, inl, inr, false, List, [], ◌∷◌, map, arith, All, Bool-cases, contains,
  is_empty,
}
use rustygate.Text.{trim, is_blank}
use rustygate.Config.{ModelPoolConfig}
use rustygate.Config.Sections.{errors_of, is_some_zero}
use rustygate.Config.PoolScan.{
  PoolScan, member_errors, conflict_checks, alias_errors, pool_body, scan_pool, scan_pools,
  pool_message,
}
use rustygate.Config.Spec.{errors_of_iff}
use rustygate.Config.Fresh.{
  Fresh, push_all, Fresh-append_iff, push_all-append, append-nil_iff, append4-nil_iff,
}
use rustygate.Config.PoolSpec.{
  public_names_of, public_names, IsValidPool, member_errors_iff, conflict_checks_iff,
  alias_errors_iff, alias_errors_seen,
}

module _ (provider_names provider_models : List String) (model_aliases : Dict String) where
  -- A pool that the scan takes without an error, after the names of `scan`.
  abbrev pub IsNext : PoolScan → ModelPoolConfig → Type 0
  IsNext scan pool =
      IsValidPool provider_names provider_models model_aliases pool
      × ((contains scan.seen_pool_names (trim pool.name) ≡ false)
          × Fresh scan.seen_public_models (public_names_of pool))

  abbrev pub taken : PoolScan → ModelPoolConfig → PoolScan
  taken scan pool = record {
    seen_pool_names = trim pool.name ∷ scan.seen_pool_names;
    seen_public_models = push_all (public_names_of pool) scan.seen_public_models;
  }

  pool_body_iff :
      (scan : PoolScan) (pool : ModelPoolConfig)
      → is_blank pool.name ≡ false
      → contains scan.seen_pool_names (trim pool.name) ≡ false
      → ((pool_body provider_names provider_models model_aliases scan pool).1 ≡ [])
        ↔ IsNext scan pool
  unfolding pool_body
  pool_body_iff scan pool b c =
      let name = trim pool.name in
      let seen = name ∷ scan.seen_public_models in
      let free =
        conflict_checks_iff provider_names provider_models model_aliases scan.seen_public_models
          name (pool_message name "") in
      let members =
        member_errors_iff provider_names provider_models model_aliases name pool.members in
      let aliases =
        alias_errors_iff provider_names provider_models model_aliases name seen pool.aliases in
      let own = errors_of_iff (
        (is_empty pool.members, pool_message name " must include at least one member provider")
        ∷ (
          is_some_zero pool.max_in_flight,
          pool_message name " max_in_flight must be greater than 0",
        )
        ∷ []) in
      let split =
        append4-nil_iff
          (errors_of (
            conflict_checks provider_names provider_models model_aliases scan.seen_public_models
              name (pool_message name "")))
          (errors_of (
            (is_empty pool.members, pool_message name " must include at least one member provider")
            ∷ (
              is_some_zero pool.max_in_flight,
              pool_message name " max_in_flight must be greater than 0",
            )
            ∷ []))
          (member_errors provider_names provider_models model_aliases name pool.members)
          (alias_errors provider_names provider_models model_aliases name seen pool.aliases).1 in
      (
        (λ h.
            let (f, (o, (m, a))) = split.0 h in
            let (v, fresh) = aliases.0 a in
            (
              record {
                named = (b, (free.0 f).0);
                some_member = (own.0 o).0;
                in_flight = (own.0 o).1.0;
                members_known = members.0 m;
                aliases_free = v;
              },
              (c, ((free.0 f).1, fresh)),
            )),
        (λ h.
            let (v, (_, (s, fresh))) = h in
            split.1 (
              free.1 (v.named.1, s),
              (
                own.1 (v.some_member, (v.in_flight, tt)),
                (members.1 v.members_known, aliases.1 (v.aliases_free, fresh)),
              ),
            )),
      )

  opened_iff :
      (scan : PoolScan) (pool : ModelPoolConfig)
      → is_blank pool.name ≡ false
      → contains scan.seen_pool_names (trim pool.name) ≡ false
      → ((scan_pool provider_names provider_models model_aliases scan pool).1 ≡ [])
        ↔ IsNext scan pool
  unfolding scan_pool
  opened_iff scan pool b c =
      let body = pool_body_iff scan pool b c in
      ((λ h. body.0 (ground arith)), (λ h. rw (b, c) (body.1 h)))

  scan_pool_iff :
      (scan : PoolScan) (pool : ModelPoolConfig)
      → ((scan_pool provider_names provider_models model_aliases scan pool).1 ≡ [])
        ↔ IsNext scan pool
  unfolding scan_pool
  scan_pool_iff scan pool = elim (Bool-cases (is_blank pool.name)) [
    | inl b ↦ ((λ h. ground arith), (λ h. ground arith))
    | inr b ↦ elim (Bool-cases (contains scan.seen_pool_names (trim pool.name))) [
      | inl c ↦ ((λ h. ground arith), (λ h. ground arith))
      | inr c ↦ opened_iff scan pool b c
    ]
  ]

  scan_pool-taken :
      (scan : PoolScan) (pool : ModelPoolConfig)
      → IsNext scan pool
      → (scan_pool provider_names provider_models model_aliases scan pool).0 ≡ taken scan pool
  unfolding scan_pool pool_body
  scan_pool-taken scan pool v =
      let seen =
        alias_errors_seen provider_names provider_models model_aliases (trim pool.name)
          (trim pool.name ∷ scan.seen_public_models) pool.aliases v.0.aliases_free in
      rw (v.0.named.0, v.1.0)
        (ap
          (λ seen'. record {
            seen_pool_names = trim pool.name ∷ scan.seen_pool_names;
            seen_public_models = seen';
          })
          seen)

  -- Every pool is valid, no two have a name in common, and no public name is given twice or taken.
  abbrev pub AreNext : PoolScan → List ModelPoolConfig → Type 0
  AreNext scan pools =
      All (IsValidPool provider_names provider_models model_aliases) pools
      × (Fresh scan.seen_pool_names (map (λ pool. trim pool.name) pools)
          × Fresh scan.seen_public_models (public_names pools))

  pub scan_pools_iff :
      (scan : PoolScan) (pools : List ModelPoolConfig)
      → ((scan_pools provider_names provider_models model_aliases scan pools).1 ≡ [])
        ↔ AreNext scan pools
  unfolding scan_pools
  scan_pools_iff scan [] = ((λ h. (tt, (tt, tt))), (λ h. refl))
  scan_pools_iff scan (pool ∷ pools) =
      let first = scan_pool provider_names provider_models model_aliases scan pool in
      let split =
        append-nil_iff first.1
          (scan_pools provider_names provider_models model_aliases first.0 pools).1 in
      let here = scan_pool_iff scan pool in
      let names =
        Fresh-append_iff scan.seen_public_models (public_names_of pool) (public_names pools) in
      let rest : IsNext scan pool
          → ((scan_pools provider_names provider_models model_aliases first.0 pools).1 ≡ [])
            ↔ AreNext (taken scan pool) pools =
        (λ v. rw (scan_pool-taken scan pool v) (scan_pools_iff (taken scan pool) pools)) in
      (
        (λ h.
            let (f, r) = split.0 h in
            let v = here.0 f in
            let (vs, (ns, ps)) = (rest v).0 r in ((v.0, vs), ((v.1.0, ns), names.1 (v.1.1, ps)))),
        (λ h.
            let ((v, vs), ((n, ns), ps)) = h in
            let (p, ps') = names.0 ps in
            let next : IsNext scan pool = (v, (n, p)) in
            split.1 (here.1 next, (rest next).1 (vs, (ns, ps')))),
      )

  pub scan_pools_public :
      (scan : PoolScan) (pools : List ModelPoolConfig)
      → AreNext scan pools
      → (scan_pools provider_names provider_models model_aliases scan pools).0.seen_public_models
        ≡ push_all (public_names pools) scan.seen_public_models
  unfolding scan_pools
  scan_pools_public scan [] v = refl
  scan_pools_public scan (pool ∷ pools) ((v, vs), ((n, ns), ps)) =
      let (p, ps') =
        (Fresh-append_iff scan.seen_public_models (public_names_of pool) (public_names pools)).0
          ps in
      rw
        (
          scan_pool-taken scan pool (v, (n, p)),
          push_all-append (public_names_of pool) (public_names pools) scan.seen_public_models,
        )
        (scan_pools_public (taken scan pool) pools (vs, (ns, ps')))
