-- ===== src/Strategy/Permutes.antt =====
-- src/routing/strategy.rs: a selection holds each provider that may serve the model, once.
use mathlib.Core.List.{Perm}
use mathlib.Core.List.Perm
use rustygate.Prelude.Sort.{sort_by-perm}
use rustygate.Prelude.{
  ℕ, String, Bool, not, inl, inr, Option, none, some, List, [], ◌∷◌, ◌++◌, select, Bool-cases,
  either_branch,
}
use rustygate.Float.{Float}
use rustygate.Config.{RoutingPolicy}
use rustygate.Provider.{ProviderEntry}
use rustygate.Pools.{ModelPool, ModelPoolIndex, pool_for_public_model}
use rustygate.Resilience.{ResilienceRegistry}
use rustygate.Lru.{LruCache}
use rustygate.Affinity.{PrefixAffinityEntry, PrefixAffinityIndex}
use rustygate.Strategy.Scores.{MetricsSnapshot}
use rustygate.Strategy.Candidates.{
  serves, candidate_providers_for_policy, move_provider_to_front, order_open_circuits_last,
  order_by_load_then_baseline,
}
use rustygate.Strategy.Selection.{
  CandidateSelection, PrefixAffinityRouting, select_missed, select_previous, select_recorded,
  select_by_prefix, select_with_fingerprint, select_in_pool, select_by_affinity, select_by_policy,
  prefix_affinity_fallback_selection, candidate_providers_with_affinity,
}

module _ {ℓ} {A : Type ℓ} where
  perm-middle : (x : A) (xs ys : List A) → Perm (xs ++ x ∷ ys) (x ∷ (xs ++ ys))
  perm-middle x [] ys = Perm.refl (x ∷ ys)
  perm-middle x (y ∷ xs) ys =
      Perm.trans (Perm.cons y (perm-middle x xs ys)) (Perm.swap x y (xs ++ ys))

  partition-perm :
      (p : A → Bool) (xs : List A) → Perm (select p xs ++ select (λ x. not (p x)) xs) xs
  unfolding select
  partition-perm p [] = Perm.refl []
  partition-perm p (x ∷ xs) = elim (Bool-cases (p x)) [
    | inl e ↦ rw e (Perm.cons x (partition-perm p xs))
    | inr e ↦ rw e (
        Perm.trans (perm-middle x (select p xs) (select (λ y. not (p y)) xs))
          (Perm.cons x (partition-perm p xs)))
  ]

module _ (fl : Float) where
  move_provider_to_front-perm :
      (cs : List (ProviderEntry fl)) (name : String) → Perm (move_provider_to_front fl cs name) cs
  unfolding move_provider_to_front
  move_provider_to_front-perm cs name = partition-perm _ cs

  -- The providers that serve the model, in the order of the configuration.
  abbrev pub eligible :
      List (ProviderEntry fl) → ModelPoolIndex → Option String → List (ProviderEntry fl)
  eligible providers pools none = []
  eligible providers pools (some model) =
      select (serves fl (pool_for_public_model pools model) model) providers

  candidates-perm :
      (providers : List (ProviderEntry fl)) (model : String) (policy : RoutingPolicy)
      (snapshot : Option (MetricsSnapshot fl)) (pools : ModelPoolIndex)
      (resilience : Option ResilienceRegistry)
      → Perm
          (candidate_providers_for_policy fl providers
            (some model)
            policy
            snapshot
            pools
            resilience)
          (eligible providers pools (some model))
  unfolding candidate_providers_for_policy
  candidates-perm providers model policy snapshot pools resilience = sort_by-perm _ _

  module _ (sha256 : String → ℕ) (lru : LruCache PrefixAffinityEntry)
      (providers : List (ProviderEntry fl)) (snapshot : Option (MetricsSnapshot fl))
      (pools : ModelPoolIndex) (resilience : Option ResilienceRegistry) where
    -- The selection only reorders `xs`.
    abbrev Arranges : CandidateSelection fl → List (ProviderEntry fl) → Type 0
    Arranges s xs = Perm s.candidates xs

    abbrev Leads :
        List (ProviderEntry fl) → CandidateSelection fl × PrefixAffinityIndex lru → Type 0
    Leads xs r = Arranges r.0 xs

    abbrev LeadsSome :
        List (ProviderEntry fl) → CandidateSelection fl × Option (PrefixAffinityIndex lru) → Type 0
    LeadsSome xs r = Arranges r.0 xs

    missed-perm :
        (policy : RoutingPolicy) (baseline : List (ProviderEntry fl))
        (e : Option (ProviderEntry fl))
        → Arranges
            (select_missed fl sha256 lru providers snapshot pools resilience policy baseline e)
            baseline
    unfolding select_missed
    missed-perm policy baseline none = Perm.refl baseline
    missed-perm policy baseline (some e) = move_provider_to_front-perm baseline _

    previous-perm :
        (policy : RoutingPolicy) (n : ℕ) (baseline : List (ProviderEntry fl)) (name : String)
        → Arranges
            (select_previous fl sha256 lru providers snapshot pools resilience policy n baseline
              name)
            baseline
    unfolding select_previous order_open_circuits_last order_by_load_then_baseline
    previous-perm policy n baseline name =
        either_branch (λ s. Arranges s baseline) _ (sort_by-perm _ baseline)
          (either_branch (λ s. Arranges s baseline) _ (Perm.refl baseline)
            (either_branch (λ s. Arranges s baseline) _ (move_provider_to_front-perm baseline name)
              (sort_by-perm _ baseline)))

    recorded-perm :
        (policy : RoutingPolicy) (n : ℕ) (f : String) (baseline : List (ProviderEntry fl))
        (previous : Option String)
        → Arranges
            (select_recorded fl sha256 lru providers snapshot pools resilience policy n f baseline
              previous)
            baseline
    unfolding select_recorded
    recorded-perm policy n f baseline none = missed-perm policy baseline _
    recorded-perm policy n f baseline (some p) =
        either_branch (λ s. Arranges s baseline) _ (previous-perm policy n baseline p)
          (missed-perm policy baseline _)

    by_prefix-perm :
        (affinity : PrefixAffinityRouting fl sha256 lru) (policy : RoutingPolicy) (f : String)
        (baseline : List (ProviderEntry fl)) (now : ℕ)
        → Arranges
            (select_by_prefix fl sha256 lru providers snapshot pools resilience affinity policy f
              baseline now).0
            baseline
    unfolding select_by_prefix order_open_circuits_last
    by_prefix-perm affinity policy f baseline now =
        either_branch (Leads baseline) _ (Perm.refl baseline) (
          either_branch (Leads baseline) _ (sort_by-perm _ baseline)
            (recorded-perm policy _ f baseline _))

    fallback-perm :
        (model : String) (policy fallback : RoutingPolicy) (reason : String)
        → Arranges
            (prefix_affinity_fallback_selection fl sha256 lru providers snapshot pools resilience
              model policy fallback reason)
            (eligible providers pools (some model))
    unfolding prefix_affinity_fallback_selection
    fallback-perm model policy fallback reason =
        candidates-perm providers model fallback snapshot pools resilience

    with_fingerprint-perm :
        (affinity : PrefixAffinityRouting fl sha256 lru) (policy : RoutingPolicy) (model : String)
        (f : Option String) (now : ℕ)
        → Arranges
            (select_with_fingerprint fl sha256 lru providers snapshot pools resilience affinity
              policy model f now).0
            (eligible providers pools (some model))
    unfolding select_with_fingerprint
    with_fingerprint-perm affinity policy model none now = fallback-perm model policy _ _
    with_fingerprint-perm affinity policy model (some f) now =
        Perm.trans (by_prefix-perm affinity policy f _ now)
          (candidates-perm providers model _ snapshot pools resilience)

    in_pool-perm :
        (affinity : PrefixAffinityRouting fl sha256 lru) (policy : RoutingPolicy) (model : String)
        (pool : Option ModelPool) (now : ℕ)
        → Arranges
            (select_in_pool fl sha256 lru providers snapshot pools resilience affinity policy model
              pool now).0
            (eligible providers pools (some model))
    unfolding select_in_pool
    in_pool-perm affinity policy model none now = fallback-perm model policy _ _
    in_pool-perm affinity policy model (some pool) now =
        either_branch (Leads (eligible providers pools (some model))) _
          (fallback-perm model policy _ _) (with_fingerprint-perm affinity policy model _ now)

    by_affinity-perm :
        (affinity : Option (PrefixAffinityRouting fl sha256 lru)) (policy : RoutingPolicy)
        (model : String) (now : ℕ)
        → Arranges
            (select_by_affinity fl sha256 lru providers snapshot pools resilience affinity policy
              model now).0
            (eligible providers pools (some model))
    unfolding select_by_affinity
    by_affinity-perm none policy model now = fallback-perm model policy _ _
    by_affinity-perm (some affinity) policy model now = in_pool-perm affinity policy model _ now

    by_policy-perm :
        (policy : RoutingPolicy) (model : String)
        → Arranges
            (select_by_policy fl sha256 lru providers snapshot pools resilience policy model)
            (eligible providers pools (some model))
    unfolding select_by_policy
    by_policy-perm policy model = candidates-perm providers model policy snapshot pools resilience

    -- Whatever the policy, the recorded prefixes, the metrics and the circuits say, the candidates are
    -- the providers that may serve the model, each exactly as often as it is configured, in some order.
    pub selection-perm :
        (model : Option String) (policy : RoutingPolicy)
        (affinity : Option (PrefixAffinityRouting fl sha256 lru)) (now : ℕ)
        → Arranges
            (candidate_providers_with_affinity fl sha256 lru providers snapshot pools resilience
              model policy affinity now).0
            (eligible providers pools model)
    unfolding candidate_providers_with_affinity
    selection-perm none policy affinity now = Perm.refl []
    selection-perm (some model) policy affinity now =
        either_branch (LeadsSome (eligible providers pools (some model))) _
          (by_affinity-perm affinity _ model now) (by_policy-perm _ model)
