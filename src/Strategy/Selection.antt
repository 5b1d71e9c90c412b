-- ===== src/Strategy/Selection.antt =====
-- src/routing/strategy.rs: `candidate_providers_with_affinity`. SHA-256 is a parameter: the digest of
-- a text, read as a number whose bytes are the digest's, the first byte the most significant one.
use rustygate.Prelude.Order.{then_with, str_cmp}
use rustygate.Prelude.{
  ℕ, String, Bool, true, false, not, ◌&&◌, Option, none, some, List, [], ◌∷◌, str_eq, ◌||◌, leb,
  is_some, if◌then◌else◌, select, all, any, is_empty, length,
}
use Prim.Native.Nat.{compare, Ordering}
use Prim.Native.String.{◌++◌}
use Prim.Native.Nat.Ordering.{gt}
use rustygate.Float.{Float}
use rustygate.Config.{RoutingPolicy, priority, cost, latency, prefix_affinity, PrefixAffinityConfig}
use rustygate.Provider.{ProviderEntry}
use rustygate.Pools.{ModelPool, ModelPoolIndex, pool_for_public_model}
use rustygate.Resilience.{ResilienceRegistry}
use rustygate.Lru.{LruCache}
use rustygate.Affinity.{PrefixAffinityEntry, PrefixAffinityIndex, lookup}
use rustygate.Strategy.Scores.{
  MetricsSnapshot, name_of, is_open_circuit, provider_has_recent_errors, load_within_threshold,
  routing_decision_reason,
}
use rustygate.Strategy.Candidates.{
  candidate_providers_for_policy, effective_routing_policy, move_provider_to_front, first,
  order_open_circuits_last, order_by_load_then_baseline,
}

pub data PrefixFingerprintConfidence : Type 0 where
  high low : PrefixFingerprintConfidence

pub record PrefixFingerprintResult : Type 0 where
  pub fingerprint : Option String
  pub confidence : PrefixFingerprintConfidence
  pub prefix_char_length : ℕ
  pub prefix_token_estimate : ℕ

abbrev is_high : PrefixFingerprintConfidence → Bool
is_high high = true
is_high low = false

unfoldable pub is_high_confidence : PrefixFingerprintResult → Bool
is_high_confidence r = is_high r.confidence && is_some r.fingerprint

abbrev pub is_prefix_affinity : RoutingPolicy → Bool
is_prefix_affinity priority = false
is_prefix_affinity cost = false
is_prefix_affinity latency = false
is_prefix_affinity prefix_affinity = true

-- `Iterator::max_by`: the last of several greatest elements.
unfoldable pub max_by : {A : Type 0} → (A → A → Ordering) → A → List A → A
max_by cmp best [] = best
max_by cmp best (x ∷ xs) = max_by cmp (elim (cmp best x) [ gt ↦ best | _ ↦ x ]) xs

module _ (fl : Float) where
  pub record CandidateSelection : Type 0 where
    pub candidates : List (ProviderEntry fl)
    pub effective_policy : RoutingPolicy
    pub reason : String

  module _ (sha256 : String → ℕ) where
    unfoldable pub rendezvous_score : String → String → ℕ
    rendezvous_score fingerprint provider_name = sha256 (fingerprint ++ ":" ++ provider_name)

    abbrev rendezvous_cmp : String → ProviderEntry fl → ProviderEntry fl → Ordering
    rendezvous_cmp fingerprint left right =
        then_with
          (compare (rendezvous_score fingerprint (name_of fl left))
            (rendezvous_score fingerprint (name_of fl right)))
          (str_cmp (name_of fl right) (name_of fl left))

    unfoldable pub rendezvous_provider :
        String → List (ProviderEntry fl) → Option (ProviderEntry fl)
    rendezvous_provider fingerprint [] = none
    rendezvous_provider fingerprint (c ∷ cs) = some (max_by (rendezvous_cmp fingerprint) c cs)

    module _ (lru : LruCache PrefixAffinityEntry) where
      pub record PrefixAffinityRouting : Type 0 where
        pub index : PrefixAffinityIndex lru
        pub config : PrefixAffinityConfig
        pub fingerprint : PrefixFingerprintResult

      module _ (providers : List (ProviderEntry fl))
          (metrics_snapshot : Option (MetricsSnapshot fl)) (model_pools : ModelPoolIndex)
          (resilience : Option ResilienceRegistry) where
        unfoldable pub prefix_affinity_fallback_selection :
            String → RoutingPolicy → RoutingPolicy → String → CandidateSelection
        prefix_affinity_fallback_selection model effective_policy fallback_policy reason = record {
          candidates =
              candidate_providers_for_policy fl providers (some model) fallback_policy
                metrics_snapshot model_pools resilience;
          effective_policy = effective_policy;
          reason = reason;
        }

        abbrev pub healthy_of : List (ProviderEntry fl) → List (ProviderEntry fl)
        healthy_of = select (λ e. not (is_open_circuit fl e resilience))

        -- No usable record of the prefix: the provider that the hash prefers comes first.
        unfoldable pub select_missed :
            RoutingPolicy → List (ProviderEntry fl) → Option (ProviderEntry fl) → CandidateSelection
        select_missed effective_policy baseline none = record {
          candidates = baseline;
          effective_policy = effective_policy;
          reason = "fallback";
        }
        select_missed effective_policy baseline (some selected) = record {
          candidates = move_provider_to_front fl baseline (name_of fl selected);
          effective_policy = effective_policy;
          reason = "prefix_miss";
        }

        -- The record names a member: the branches on its circuit, errors and load.
        unfoldable pub select_previous :
            RoutingPolicy → ℕ → List (ProviderEntry fl) → String → CandidateSelection
        select_previous effective_policy threshold baseline previous_provider =
            if all (λ e. not (str_eq (name_of fl e) previous_provider)) (healthy_of baseline)
            then record {
              candidates = order_open_circuits_last fl baseline resilience;
              effective_policy = effective_policy;
              reason = "circuit_open";
            }
            else if provider_has_recent_errors fl metrics_snapshot previous_provider
            then record {
              candidates = baseline;
              effective_policy = effective_policy;
              reason = "fallback";
            }
            else if load_within_threshold fl metrics_snapshot previous_provider
                (healthy_of baseline) threshold
            then record {
              candidates = move_provider_to_front fl baseline previous_provider;
              effective_policy = effective_policy;
              reason = "prefix_hit";
            }
            else record {
              candidates = order_by_load_then_baseline fl baseline metrics_snapshot resilience;
              effective_policy = effective_policy;
              reason = "load_imbalanced";
            }

        -- From the lookup on: `previous` is its answer.
        unfoldable pub select_recorded :
            RoutingPolicy
            → ℕ
            → String
            → List (ProviderEntry fl)
            → Option String
            → CandidateSelection
        select_recorded effective_policy threshold fingerprint baseline none =
            select_missed effective_policy baseline
              (rendezvous_provider fingerprint (healthy_of baseline))
        select_recorded effective_policy threshold fingerprint baseline (some previous) =
            if any (λ e. str_eq (name_of fl e) previous) baseline
            then select_previous effective_policy threshold baseline previous
            else select_missed effective_policy baseline
                (rendezvous_provider fingerprint (healthy_of baseline))

        -- With a trusted fingerprint of a request to a pool of several members. The index changes
        -- when it is looked up.
        unfoldable pub select_by_prefix :
            PrefixAffinityRouting
            → RoutingPolicy
            → String
            → List (ProviderEntry fl)
            → ℕ
            → CandidateSelection × PrefixAffinityIndex lru
        select_by_prefix affinity effective_policy fingerprint baseline now =
            if is_empty baseline
            then (
              record {
                candidates = baseline;
                effective_policy = effective_policy;
                reason = "no_provider";
              },
              affinity.index,
            )
            else if is_empty (healthy_of baseline)
            then (
              record {
                candidates = order_open_circuits_last fl baseline resilience;
                effective_policy = effective_policy;
                reason = "circuit_open";
              },
              affinity.index,
            )
            else (
              select_recorded effective_policy affinity.config.load_imbalance_threshold fingerprint
                  baseline (lookup lru affinity.index fingerprint now).1,
              (lookup lru affinity.index fingerprint now).0,
            )

        -- The `let … else` on the fingerprint.
        unfoldable pub select_with_fingerprint :
            PrefixAffinityRouting
            → RoutingPolicy
            → String
            → Option String
            → ℕ
            → CandidateSelection × PrefixAffinityIndex lru
        select_with_fingerprint affinity effective_policy model none now = (
          prefix_affinity_fallback_selection model effective_policy affinity.config.fallback_policy
              "fallback",
          affinity.index,
        )
        select_with_fingerprint affinity effective_policy model (some fingerprint) now =
            select_by_prefix affinity effective_policy fingerprint
              (candidate_providers_for_policy fl providers (some model)
                affinity.config.fallback_policy metrics_snapshot model_pools resilience)
              now

        -- The `let … else` on the pool, and its guard.
        unfoldable pub select_in_pool :
            PrefixAffinityRouting
            → RoutingPolicy
            → String
            → Option ModelPool
            → ℕ
            → CandidateSelection × PrefixAffinityIndex lru
        select_in_pool affinity effective_policy model none now = (
          prefix_affinity_fallback_selection model effective_policy affinity.config.fallback_policy
              "fallback",
          affinity.index,
        )
        select_in_pool affinity effective_policy model (some pool) now =
            if leb (length pool.members) 1 || not (is_high_confidence affinity.fingerprint)
            then (
              prefix_affinity_fallback_selection model effective_policy
                  affinity.config.fallback_policy "fallback",
              affinity.index,
            )
            else select_with_fingerprint affinity effective_policy model
                affinity.fingerprint.fingerprint now

        abbrev keep_index :
            CandidateSelection × PrefixAffinityIndex lru
            → CandidateSelection × Option (PrefixAffinityIndex lru)
        keep_index (s, i) = (s, some i)

        -- The `let … else` on the affinity argument.
        unfoldable pub select_by_affinity :
            Option PrefixAffinityRouting
            → RoutingPolicy
            → String
            → ℕ
            → CandidateSelection × Option (PrefixAffinityIndex lru)
        select_by_affinity none effective_policy model now =
            (prefix_affinity_fallback_selection model effective_policy priority "fallback", none)
        select_by_affinity (some affinity) effective_policy model now = keep_index (
            select_in_pool affinity effective_policy model (pool_for_public_model model_pools model)
              now)

        -- Any other policy.
        unfoldable pub select_by_policy : RoutingPolicy → String → CandidateSelection
        select_by_policy effective_policy model =
            let candidates =
              candidate_providers_for_policy fl providers (some model) effective_policy
                metrics_snapshot model_pools resilience in
            record {
              candidates = candidates;
              effective_policy = effective_policy;
              reason =
                  routing_decision_reason fl effective_policy (first fl candidates)
                    metrics_snapshot;
            }

        abbrev index_of : Option PrefixAffinityRouting → Option (PrefixAffinityIndex lru)
        index_of none = none
        index_of (some affinity) = some affinity.index

        unfoldable pub candidate_providers_with_affinity :
            Option String
            → RoutingPolicy
            → Option PrefixAffinityRouting
            → ℕ
            → CandidateSelection × Option (PrefixAffinityIndex lru)
        candidate_providers_with_affinity none routing_policy affinity now = (
          record { candidates = []; effective_policy = routing_policy; reason = "no_provider" },
          index_of affinity,
        )
        candidate_providers_with_affinity (some model) routing_policy affinity now =
            let effective_policy =
              effective_routing_policy (some model) routing_policy model_pools in
            if is_prefix_affinity effective_policy
            then select_by_affinity affinity effective_policy model now
            else (select_by_policy effective_policy model, index_of affinity)
