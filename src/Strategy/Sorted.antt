-- ===== src/Strategy/Sorted.antt =====
-- src/routing/strategy.rs: the order of the candidates is the policy's.
use rustygate.Prelude.Order.{
  IsRanking, compare-IsRanking, by_key-IsRanking, then_with-IsRanking, str_cmp-IsRanking, then_with,
}
use rustygate.Prelude.Sort.{IsSorted, sort_by-IsSorted}
use Prim.Native.Nat.Ordering.{lt, gt}
use rustygate.Prelude.Order.{str_cmp}
use rustygate.Prelude.{
  ◌<◌, ◌≡◌, ◌≢◌, ◌⊎◌, String, Ordering, Option, none, some, List, [], ◌∷◌, All, All-map, arith,
}
use rustygate.Float.{Float, IsTotalOrder}
use rustygate.Config.{RoutingPolicy, priority, cost, latency, prefix_affinity}
use rustygate.Provider.{ProviderEntry}
use rustygate.Pools.{ModelPoolIndex}
use rustygate.Resilience.{ResilienceRegistry}
use rustygate.Strategy.Scores.{MetricsSnapshot, name_of, provider_cost, provider_latency_score}
use rustygate.Strategy.Candidates.{rank_cmp, policy_cmp, candidate_providers_for_policy}

total-IsRanking {ℓ} : {A : Type ℓ} {cmp : A → A → Ordering} → IsTotalOrder cmp → IsRanking cmp
total-IsRanking {cmp = cmp} r = record {
  flips = λ a b. ground (arith, r.lt_of_gt a b, r.gt_of_lt a b, r.eq_of_cmp a b, r.cmp_refl a);
  lt_trans = λ a b c h k. ground (arith, r.lt_trans a b c, r.eq_of_cmp b c);
  eq_trans = λ a b c h. ground (arith, r.eq_of_cmp a b);
}

module _ (fl : Float) where
  rank_cmp-IsRanking : IsRanking (rank_cmp fl)
  rank_cmp-IsRanking =
      then_with-IsRanking (by_key-IsRanking (λ e. e.priority) compare-IsRanking)
        (by_key-IsRanking (name_of fl) str_cmp-IsRanking)

  by_f64-IsRanking :
      (key : ProviderEntry fl → fl.F64)
      → IsRanking (λ a b. then_with (fl.total_cmp (key a) (key b)) (rank_cmp fl a b))
  by_f64-IsRanking key =
      then_with-IsRanking (by_key-IsRanking key (total-IsRanking fl.total_cmp-IsTotalOrder))
        rank_cmp-IsRanking

  pub policy_cmp-IsRanking :
      (policy : RoutingPolicy) (snapshot : Option (MetricsSnapshot fl))
      (resilience : Option ResilienceRegistry)
      → IsRanking (policy_cmp fl policy snapshot resilience)
  unfolding policy_cmp
  policy_cmp-IsRanking priority snapshot resilience = rank_cmp-IsRanking
  policy_cmp-IsRanking cost snapshot resilience = by_f64-IsRanking (provider_cost fl)
  policy_cmp-IsRanking latency snapshot resilience =
      by_f64-IsRanking (λ e. provider_latency_score fl e snapshot resilience)
  policy_cmp-IsRanking prefix_affinity snapshot resilience = rank_cmp-IsRanking

  -- The order of entries that score alike: the lower priority number first, then the name.
  abbrev pub RanksFirst : ProviderEntry fl → ProviderEntry fl → Type 0
  RanksFirst a b =
      (a.priority < b.priority)
      ⊎ ((a.priority ≡ b.priority) × (str_cmp (name_of fl a) (name_of fl b) ≢ gt))

  -- The lower score first, which need not be a number; then the rank.
  abbrev pub ScoresFirst :
      (ProviderEntry fl → fl.F64) → ProviderEntry fl → ProviderEntry fl → Type 0
  ScoresFirst score a b =
      (fl.total_cmp (score a) (score b) ≡ lt) ⊎ ((score a ≡ score b) × RanksFirst a b)

  -- What a policy promises of two candidates, the first of which comes earlier.
  abbrev pub ComesFirst :
      RoutingPolicy
      → Option (MetricsSnapshot fl)
      → Option ResilienceRegistry
      → ProviderEntry fl
      → ProviderEntry fl
      → Type 0
  ComesFirst priority snapshot resilience a b = RanksFirst a b
  ComesFirst cost snapshot resilience a b = ScoresFirst (provider_cost fl) a b
  ComesFirst latency snapshot resilience a b =
      ScoresFirst (λ e. provider_latency_score fl e snapshot resilience) a b
  ComesFirst prefix_affinity snapshot resilience a b = RanksFirst a b

  -- Of each two entries of a list, the earlier comes first under the policy.
  abbrev pub FollowsPolicy :
      RoutingPolicy
      → Option (MetricsSnapshot fl)
      → Option ResilienceRegistry
      → List (ProviderEntry fl)
      → Type 0
  FollowsPolicy policy snapshot resilience [] = Unit
  FollowsPolicy policy snapshot resilience (a ∷ es) =
      All (ComesFirst policy snapshot resilience a) es × FollowsPolicy policy snapshot resilience es

  rank_cmp-RanksFirst : (a b : ProviderEntry fl) → rank_cmp fl a b ≢ gt → RanksFirst a b
  rank_cmp-RanksFirst a b h = ground arith

  score_cmp-ScoresFirst :
      (score : ProviderEntry fl → fl.F64) (a b : ProviderEntry fl)
      → then_with (fl.total_cmp (score a) (score b)) (rank_cmp fl a b) ≢ gt
      → ScoresFirst score a b
  score_cmp-ScoresFirst score a b h =
      ground
        (arith, fl.total_cmp-IsTotalOrder.eq_of_cmp (score a) (score b), rank_cmp-RanksFirst a b)

  policy_cmp-ComesFirst :
      (policy : RoutingPolicy) (snapshot : Option (MetricsSnapshot fl))
      (resilience : Option ResilienceRegistry) (a b : ProviderEntry fl)
      → policy_cmp fl policy snapshot resilience a b ≢ gt
      → ComesFirst policy snapshot resilience a b
  unfolding policy_cmp
  policy_cmp-ComesFirst priority snapshot resilience a b h = rank_cmp-RanksFirst a b h
  policy_cmp-ComesFirst cost snapshot resilience a b h =
      score_cmp-ScoresFirst (provider_cost fl) a b h
  policy_cmp-ComesFirst latency snapshot resilience a b h =
      score_cmp-ScoresFirst (λ e. provider_latency_score fl e snapshot resilience) a b h
  policy_cmp-ComesFirst prefix_affinity snapshot resilience a b h = rank_cmp-RanksFirst a b h

  sorted-FollowsPolicy :
      (policy : RoutingPolicy) (snapshot : Option (MetricsSnapshot fl))
      (resilience : Option ResilienceRegistry) (entries : List (ProviderEntry fl))
      → IsSorted (policy_cmp fl policy snapshot resilience) entries
      → FollowsPolicy policy snapshot resilience entries
  sorted-FollowsPolicy policy snapshot resilience [] s = tt
  sorted-FollowsPolicy policy snapshot resilience (a ∷ es) s = (
    All-map _ _ (policy_cmp-ComesFirst policy snapshot resilience a) es s.0,
    sorted-FollowsPolicy policy snapshot resilience es s.1,
  )

  -- Of two candidates the earlier one has, under the cost and the latency policy, the lower cost or
  -- latency score in the total order of the numbers; where the scores are the same, and under the
  -- other policies, it has the lower priority number, or the same one and a name that is not greater.
  pub candidates-FollowsPolicy :
      (providers : List (ProviderEntry fl)) (model : Option String) (policy : RoutingPolicy)
      (snapshot : Option (MetricsSnapshot fl)) (pools : ModelPoolIndex)
      (resilience : Option ResilienceRegistry)
      → FollowsPolicy policy snapshot resilience
          (candidate_providers_for_policy fl providers model policy snapshot pools resilience)
  unfolding candidate_providers_for_policy
  candidates-FollowsPolicy providers none policy snapshot pools resilience = tt
  candidates-FollowsPolicy providers (some model) policy snapshot pools resilience =
      sorted-FollowsPolicy policy snapshot resilience _ (
        sort_by-IsSorted (policy_cmp fl policy snapshot resilience)
          (policy_cmp-IsRanking policy snapshot resilience) _)
