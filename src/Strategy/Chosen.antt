-- ===== src/Strategy/Chosen.antt =====
-- src/routing/strategy.rs: which provider a hit of the prefix index puts first.
use rustygate.Prelude.{
  ℕ, String, Bool, false, not, ◌≡◌, ◌≢◌, refl, sym, ap, ◌∙◌, inl, inr, Option, none, some, List, [],
  ◌∷◌, ◌++◌, arith, select, all, is_empty, Bool-cases, either_branch, str_eq, str_eq_iff,
}
use mathlib.Core.Bool.{true≢false}
use rustygate.Float.{Float}
use rustygate.Config.{RoutingPolicy, priority, cost, latency, prefix_affinity}
use rustygate.Provider.{ProviderEntry}
use rustygate.Pools.{ModelPool, ModelPoolIndex}
use rustygate.Resilience.{ResilienceRegistry, circuit_state}
use rustygate.Lru.{LruCache}
use rustygate.Affinity.{PrefixAffinityEntry, PrefixAffinityIndex}
use rustygate.Strategy.Scores.{
  MetricsSnapshot, name_of, is_open_circuit, is_opened, provider_has_recent_errors,
  load_within_threshold, routing_decision_reason, latency_reason,
}
use rustygate.Strategy.Candidates.{move_provider_to_front}
use rustygate.Strategy.Selection.{
  CandidateSelection, PrefixAffinityRouting, select_missed, select_previous, select_recorded,
  select_by_prefix, select_with_fingerprint, select_in_pool, select_by_affinity, select_by_policy,
  prefix_affinity_fallback_selection, candidate_providers_with_affinity,
}

module _ (fl : Float) where
  open_by_name :
      (a b : ProviderEntry fl) (r : Option ResilienceRegistry)
      → name_of fl a ≡ name_of fl b
      → is_open_circuit fl a r ≡ is_open_circuit fl b r
  unfolding is_open_circuit
  open_by_name a b none h = refl
  open_by_name a b (some r) h = ap (λ n. is_opened (circuit_state r n)) h

  abbrev named : String → ProviderEntry fl → Bool
  named name e = str_eq (name_of fl e) name

  abbrev closed_in : Option ResilienceRegistry → ProviderEntry fl → Bool
  closed_in resilience e = not (is_open_circuit fl e resilience)

  -- The first provider of that name, where a healthy one has it.
  abbrev Front : Option ResilienceRegistry → String → List (ProviderEntry fl) → Type 0
  Front r name xs =
      (h : ProviderEntry fl) × (rest : List (ProviderEntry fl)) × (select (named name) xs
        ≡ h ∷ rest)
      × (name_of fl h ≡ name)
      × (is_open_circuit fl h r ≡ false)

  front :
      (r : Option ResilienceRegistry) (name : String) (xs : List (ProviderEntry fl))
      → all (λ e. not (named name e)) (select (closed_in r) xs) ≡ false
      → Front r name xs
  unfolding select all
  front r name [] h = cc
  front r name (x ∷ xs) h = elim (Bool-cases (named name x)) [
    | inl e ↦ elim (Bool-cases (is_open_circuit fl x r)) [
      | inr closed ↦
          (x, select (named name) xs, rw e refl, (str_eq_iff (name_of fl x) name).0 e, closed)
      | inl opened ↦
          let (y, rest, e', n, c) = front r name xs (ground arith) in
          let same = open_by_name x y r ((str_eq_iff (name_of fl x) name).0 e ∙ sym n) in
          absurd (true≢false (sym opened ∙ same ∙ c))
    ]
    | inr e ↦ let (y, rest, e', n, c) = front r name xs (ground arith) in (y, rest, rw e e', n, c)
  ]

-- A reason other than a hit.
abbrev NotHit : String → Type 0
NotHit reason = reason ≢ "prefix_hit"

p95-NotHit : NotHit "recent_latency_p95"
p95-NotHit e = cc

average-NotHit : NotHit "average_latency"
average-NotHit e = cc

no_data-NotHit : NotHit "no_latency_data"
no_data-NotHit e = cc

miss-NotHit : NotHit "prefix_miss"
miss-NotHit e = cc

fallback-NotHit : NotHit "fallback"
fallback-NotHit e = cc

circuit_open-NotHit : NotHit "circuit_open"
circuit_open-NotHit e = cc

imbalanced-NotHit : NotHit "load_imbalanced"
imbalanced-NotHit e = cc

no_provider-NotHit : NotHit "no_provider"
no_provider-NotHit e = cc

module _ (fl : Float) where
  latency_reason-NotHit :
      (snapshot : Option (MetricsSnapshot fl)) (name : String)
      → NotHit (latency_reason fl snapshot name)
  unfolding latency_reason
  latency_reason-NotHit none name = λ e. cc
  latency_reason-NotHit (some snapshot) name =
      either_branch NotHit _ p95-NotHit (either_branch NotHit _ average-NotHit no_data-NotHit)

  decision_reason-NotHit :
      (policy : RoutingPolicy) (e : Option (ProviderEntry fl))
      (snapshot : Option (MetricsSnapshot fl))
      → NotHit (routing_decision_reason fl policy e snapshot)
  unfolding routing_decision_reason
  decision_reason-NotHit priority e snapshot = λ h. cc
  decision_reason-NotHit cost e snapshot = λ h. cc
  decision_reason-NotHit prefix_affinity e snapshot = λ h. cc
  decision_reason-NotHit latency none snapshot = λ h. cc
  decision_reason-NotHit latency (some e) snapshot = latency_reason-NotHit snapshot _

  module _ (sha256 : String → ℕ) (lru : LruCache PrefixAffinityEntry)
      (providers : List (ProviderEntry fl)) (snapshot : Option (MetricsSnapshot fl))
      (pools : ModelPoolIndex) (resilience : Option ResilienceRegistry) where
    -- A provider whose circuit is not open and which has no recent error comes first.
    abbrev pub LeadsHealthy : List (ProviderEntry fl) → Type 0
    LeadsHealthy candidates =
        (h : ProviderEntry fl) × (rest : List (ProviderEntry fl)) × (candidates ≡ h ∷ rest)
        × (is_open_circuit fl h resilience ≡ false)
        × (provider_has_recent_errors fl snapshot (name_of fl h) ≡ false)

    abbrev Hits : CandidateSelection fl → Type 0
    Hits s = s.reason ≡ "prefix_hit" → LeadsHealthy s.candidates

    hit_first :
        (name : String) (baseline : List (ProviderEntry fl))
        → all (λ e. not (named fl name e)) (select (closed_in fl resilience) baseline) ≡ false
        → provider_has_recent_errors fl snapshot name ≡ false
        → LeadsHealthy (move_provider_to_front fl baseline name)
    unfolding move_provider_to_front
    hit_first name baseline h quiet =
        let (y, rest, e, n, c) = front fl resilience name baseline h in
        (
          y,
          rest ++ select (λ c. not (named fl name c)) baseline,
          ap (λ xs. xs ++ select (λ c. not (named fl name c)) baseline) e,
          c,
          ap (provider_has_recent_errors fl snapshot) n ∙ quiet,
        )

    previous-Hits :
        (policy : RoutingPolicy) (n : ℕ) (baseline : List (ProviderEntry fl)) (name : String)
        → Hits (
            select_previous fl sha256 lru providers snapshot pools resilience policy n baseline
              name)
    unfolding select_previous
    previous-Hits policy n baseline name =
        elim (Bool-cases
          (all (λ e. not (named fl name e)) (select (closed_in fl resilience) baseline))) [
            | inl e ↦ rw e (λ h. absurd (circuit_open-NotHit h))
            | inr e ↦ rw e (elim (Bool-cases (provider_has_recent_errors fl snapshot name)) [
              | inl e' ↦ rw e' (λ h. absurd (fallback-NotHit h))
              | inr e' ↦
                  rw e'
                    (elim (Bool-cases (
                      load_within_threshold fl snapshot name
                        (select (closed_in fl resilience) baseline) n)) [
                          | inl e'' ↦ rw e'' (λ h. hit_first name baseline e e')
                          | inr e'' ↦ rw e'' (λ h. absurd (imbalanced-NotHit h))
                        ])
            ])
          ]

    missed-Hits :
        (policy : RoutingPolicy) (baseline : List (ProviderEntry fl))
        (e : Option (ProviderEntry fl))
        → Hits (select_missed fl sha256 lru providers snapshot pools resilience policy baseline e)
    unfolding select_missed
    missed-Hits policy baseline none = λ h. absurd (fallback-NotHit h)
    missed-Hits policy baseline (some e) = λ h. absurd (miss-NotHit h)

    recorded-Hits :
        (policy : RoutingPolicy) (n : ℕ) (f : String) (baseline : List (ProviderEntry fl))
        (previous : Option String)
        → Hits (
            select_recorded fl sha256 lru providers snapshot pools resilience policy n f baseline
              previous)
    unfolding select_recorded
    recorded-Hits policy n f baseline none = missed-Hits policy baseline _
    recorded-Hits policy n f baseline (some p) =
        either_branch Hits _ (previous-Hits policy n baseline p) (missed-Hits policy baseline _)

    abbrev HitsFirst : CandidateSelection fl × PrefixAffinityIndex lru → Type 0
    HitsFirst r = Hits r.0

    by_prefix-Hits :
        (affinity : PrefixAffinityRouting fl sha256 lru) (policy : RoutingPolicy) (f : String)
        (baseline : List (ProviderEntry fl)) (now : ℕ)
        → HitsFirst (
            select_by_prefix fl sha256 lru providers snapshot pools resilience affinity policy f
              baseline now)
    unfolding select_by_prefix
    by_prefix-Hits affinity policy f baseline now = elim (Bool-cases (is_empty baseline)) [
      | inl e ↦ rw e (λ h. absurd (no_provider-NotHit h))
      | inr e ↦ rw e (elim (Bool-cases (is_empty (select (closed_in fl resilience) baseline))) [
        | inl e' ↦ rw e' (λ h. absurd (circuit_open-NotHit h))
        | inr e' ↦ rw e' (recorded-Hits policy _ f baseline _)
      ])
    ]

    fallback-Hits :
        (model : String) (policy fallback : RoutingPolicy)
        → Hits (
            prefix_affinity_fallback_selection fl sha256 lru providers snapshot pools resilience
              model policy fallback "fallback")
    unfolding prefix_affinity_fallback_selection
    fallback-Hits model policy fallback = λ h. absurd (fallback-NotHit h)

    with_fingerprint-Hits :
        (affinity : PrefixAffinityRouting fl sha256 lru) (policy : RoutingPolicy) (model : String)
        (f : Option String) (now : ℕ)
        → HitsFirst (
            select_with_fingerprint fl sha256 lru providers snapshot pools resilience affinity
              policy model f now)
    unfolding select_with_fingerprint
    with_fingerprint-Hits affinity policy model none now = fallback-Hits model policy _
    with_fingerprint-Hits affinity policy model (some f) now =
        by_prefix-Hits affinity policy f _ now

    in_pool-Hits :
        (affinity : PrefixAffinityRouting fl sha256 lru) (policy : RoutingPolicy) (model : String)
        (pool : Option ModelPool) (now : ℕ)
        → HitsFirst (
            select_in_pool fl sha256 lru providers snapshot pools resilience affinity policy model
              pool now)
    unfolding select_in_pool
    in_pool-Hits affinity policy model none now = fallback-Hits model policy _
    in_pool-Hits affinity policy model (some pool) now =
        either_branch HitsFirst _ (fallback-Hits model policy _)
          (with_fingerprint-Hits affinity policy model _ now)

    abbrev HitsAny : CandidateSelection fl × Option (PrefixAffinityIndex lru) → Type 0
    HitsAny r = Hits r.0

    by_affinity-Hits :
        (affinity : Option (PrefixAffinityRouting fl sha256 lru)) (policy : RoutingPolicy)
        (model : String) (now : ℕ)
        → HitsAny (
            select_by_affinity fl sha256 lru providers snapshot pools resilience affinity policy
              model now)
    unfolding select_by_affinity
    by_affinity-Hits none policy model now = fallback-Hits model policy _
    by_affinity-Hits (some affinity) policy model now = in_pool-Hits affinity policy model _ now

    by_policy-Hits :
        (policy : RoutingPolicy) (model : String)
        → Hits (select_by_policy fl sha256 lru providers snapshot pools resilience policy model)
    unfolding select_by_policy
    by_policy-Hits policy model = λ h. absurd (decision_reason-NotHit policy _ snapshot h)

    -- Where the selection reports a hit of the prefix index, the first candidate is a provider whose
    -- circuit is not open and which has no recent error.
    pub selection-LeadsHealthy :
        (model : Option String) (policy : RoutingPolicy)
        (affinity : Option (PrefixAffinityRouting fl sha256 lru)) (now : ℕ)
        → (candidate_providers_with_affinity fl sha256 lru providers snapshot pools resilience model
            policy affinity now).0.reason
          ≡ "prefix_hit"
        → LeadsHealthy
            (candidate_providers_with_affinity fl sha256 lru providers snapshot pools resilience
              model policy affinity now).0.candidates
    unfolding candidate_providers_with_affinity
    selection-LeadsHealthy none policy affinity now = λ h. absurd (no_provider-NotHit h)
    selection-LeadsHealthy (some model) policy affinity now =
        either_branch HitsAny _ (by_affinity-Hits affinity _ model now) (by_policy-Hits _ model)
