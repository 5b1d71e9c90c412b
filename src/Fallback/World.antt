-- ===== src/Fallback/World.antt =====
-- src/routing/fallback.rs: what a request shares with the others, the world: the registries, the
-- metrics and the clock, and in `outside` all else; and what a run of the loops carries along.
use rustygate.Prelude.{ℕ, String, Option, none, some, List, if◌then◌else◌, ◌&&◌}
use rustygate.Float.{Float}
use rustygate.Errors.{ProviderError}
use rustygate.Chat.{ChatCompletionRequest, ChatCompletionResponse}
use rustygate.Config.{RoutingPolicy, policy_name}
use rustygate.Tokens.{estimate_tokens_for_messages}
use rustygate.Provider.{CostEstimate}
use rustygate.Lru.{LruCache}
use rustygate.Affinity.{PrefixAffinityEntry, PrefixAffinityIndex, remember}
use rustygate.Resilience.{ResilienceRegistry}
use rustygate.Admission.{AdmissionController, AdmissionRejection}
use rustygate.Metrics.{
  MetricsRegistry, ProviderLoadEstimate, record_routing_decision, record_prefix_fingerprint,
}
use rustygate.Strategy.Selection.{PrefixFingerprintResult, is_high_confidence, is_prefix_affinity}
use rustygate.Fallback.Attempt.{ProviderAttempt}

module _ (fl : Float) where
  pub record FallbackSuccess : Type 0 where
    pub response : ChatCompletionResponse
    pub provider_name : String
    pub cost_estimate : CostEstimate fl
    pub estimated_cost_usd : fl.F64
    pub attempts : List ProviderAttempt

pub data FallbackError : Type 0 where
  no_provider_available : FallbackError
  admission_rejected : AdmissionRejection → FallbackError
  provider_failed : ProviderError → List ProviderAttempt → FallbackError

-- The mutable locals of the loops.
pub record Progress : Type 0 where
  pub attempts : List ProviderAttempt
  pub attempt_order : ℕ

unfoldable pub request_for_provider :
    {V F : Type 0} → ChatCompletionRequest V F → String → ChatCompletionRequest V F
request_for_provider request provider_model = record request { model = some provider_model }

unfoldable pub provider_load_estimate :
    {V F : Type 0} → ChatCompletionRequest V F → ProviderLoadEstimate
unfolding estimate_tokens_for_messages
provider_load_estimate request = record {
  prompt_tokens = estimate_tokens_for_messages request.messages;
  max_completion_tokens = request.max_tokens;
}

-- What one candidate's retries end in.
pub data Outcome : Type 0 where
  succeeded : ChatCompletionResponse → Outcome
  stopped : ProviderError → Outcome
  exhausted : ProviderError → Outcome

module _ (fl : Float) (lru : LruCache PrefixAffinityEntry) (S : Type 0) where
  pub record World : Type 0 where
    pub resilience : ResilienceRegistry
    pub admission : AdmissionController
    pub affinity : PrefixAffinityIndex lru
    pub metrics : MetricsRegistry fl.F64
    pub now : ℕ  -- the clock, in nanoseconds
    pub outside : S

  unfoldable pub decide : RoutingPolicy → String → World → World
  unfolding policy_name record_routing_decision
  decide policy reason w = record w {
    metrics = record_routing_decision w.metrics (policy_name policy) reason;
  }

  -- `record_prefix_fingerprint`
  unfoldable pub note_fingerprint : PrefixFingerprintResult → World → World
  unfolding is_high_confidence
  note_fingerprint fingerprint w = record w {
    metrics =
        record_prefix_fingerprint w.metrics
          (if is_high_confidence fingerprint then "hit" else "miss");
  }

  abbrev pub remember_if_known : Option String → String → World → World
  remember_if_known none provider_name w = w
  remember_if_known (some f) provider_name w = record w {
    affinity = remember lru w.affinity f provider_name w.now;
  }

  unfoldable pub record_prefix_affinity_selection :
      PrefixFingerprintResult → String → RoutingPolicy → World → World
  unfolding is_high_confidence remember
  record_prefix_affinity_selection fingerprint provider_name effective_policy w =
      if is_prefix_affinity effective_policy && is_high_confidence fingerprint
      then remember_if_known fingerprint.fingerprint provider_name w
      else w

  -- A world, the mutable locals and what a candidate's retries ended in.
  abbrev pub Run : Type 0
  Run = (World × Progress) × Outcome
