-- ===== src/Fallback/Chat.antt =====
-- src/routing/fallback.rs: `complete_chat`, the selection and the loop over the candidates. The awaited
-- calls and the fingerprint are parameters, as they are for the attempts of one candidate.
use rustygate.Prelude.{
  ℕ, String, Bool, true, false, Option, none, some, List, [], ◌∷◌, if◌then◌else◌, is_empty, Result,
  ok, err,
}
use rustygate.Float.{Float}
use rustygate.Errors.{ProviderError}
use rustygate.Chat.{ChatCompletionRequest, ChatCompletionResponse}
use rustygate.Config.{RoutingPolicy, PrefixAffinityConfig}
use rustygate.Provider.{ProviderEntry, estimate_cost}
use rustygate.Pools.{ModelPoolIndex}
use rustygate.Lru.{LruCache}
use rustygate.Affinity.{PrefixAffinityEntry, PrefixAffinityIndex}
use rustygate.Resilience.{policy_for, allow_provider_call}
use rustygate.Admission.{
  AdmissionController, AdmissionRejection, AdmissionGuard, try_acquire_provider,
}
use rustygate.Admission
use rustygate.Strategy.Scores.{MetricsSnapshot}
use rustygate.Strategy.Selection.{
  PrefixFingerprintResult, CandidateSelection, candidate_providers_with_affinity,
}
use rustygate.Fallback.Attempt.{ProviderAttempt}
use rustygate.Fallback.World.{
  FallbackSuccess, FallbackError, no_provider_available, admission_rejected, provider_failed,
  Progress, succeeded, stopped, exhausted, World, decide, note_fingerprint, Run,
}
use rustygate.Fallback.Retry.{retry_loop}

module _ (fl : Float) (lru : LruCache PrefixAffinityEntry) (S : Type 0) {V F : Type 0}
    (chat_completion : ProviderEntry fl
      → ChatCompletionRequest V F
      → World fl lru S
      → World fl lru S × Result ChatCompletionResponse ProviderError)
    (sleep : ℕ → World fl lru S → World fl lru S) (fingerprint : PrefixFingerprintResult)
    (request : ChatCompletionRequest V F) where
  abbrev drop_guard : AdmissionGuard → World fl lru S → World fl lru S
  drop_guard g w = record w { admission = (Admission.finish w.admission g).0 }

  unfoldable pub success_of :
      ProviderEntry fl → ChatCompletionResponse → List ProviderAttempt → FallbackSuccess fl
  unfolding estimate_cost
  success_of entry response attempts =
      let cost =
        estimate_cost fl entry.pricing response.usage.prompt_tokens
          response.usage.completion_tokens in
      record {
        response = response;
        provider_name = entry.provider.name;
        cost_estimate = cost;
        estimated_cost_usd = cost.total_cost_usd;
        attempts = attempts;
      }

  abbrev pub Answer : Type 0
  Answer = Result (FallbackSuccess fl) FallbackError

  -- After the loop over the candidates.
  unfoldable pub no_answer : Option AdmissionRejection → Answer
  no_answer none = err no_provider_available
  no_answer (some rejection) = err (admission_rejected rejection)

  unfoldable pub admit :
      ProviderEntry fl → World fl lru S → World fl lru S × Result AdmissionGuard AdmissionRejection
  admit entry w =
      let (a, admitted) = try_acquire_provider w.admission entry.provider.name in
      (record w { admission = a }, admitted)

  -- `if is_fallback { record_routing_decision(…, "fallback") }`
  abbrev note_fallback : RoutingPolicy → Bool → World fl lru S → World fl lru S
  note_fallback policy is_fallback w =
      if is_fallback then decide fl lru S policy "fallback" w else w

  unfoldable pub try_entry :
      RoutingPolicy
      → ProviderEntry fl
      → Bool
      → AdmissionGuard
      → World fl lru S
      → Progress
      → Run fl lru S
  unfolding retry_loop
  try_entry policy entry is_fallback g w p =
      let retry = (policy_for w.resilience entry.provider.name).retry in
      let ((w', p'), outcome) =
        retry_loop fl lru S chat_completion sleep fingerprint request policy entry is_fallback retry
          retry.max_retries 0 (note_fallback policy is_fallback w) p in
      ((drop_guard g w', p'), outcome)

  -- The end of a candidate's round: `next` goes on with the candidates that are left, if any.
  unfoldable pub on_outcome :
      ProviderEntry fl
      → Bool
      → (World fl lru S → Progress → World fl lru S × Answer)
      → Run fl lru S
      → World fl lru S × Answer
  unfolding success_of
  on_outcome entry is_last next ((w, p), succeeded response) =
      (w, ok (success_of entry response p.attempts))
  on_outcome entry is_last next ((w, p), stopped error) =
      (w, err (provider_failed error p.attempts))
  on_outcome entry true next ((w, p), exhausted error) = (w, err (provider_failed error p.attempts))
  on_outcome entry false next ((w, p), exhausted error) = next w p

  -- The candidates that are left, from a rejection, a world and the attempts so far.
  abbrev Next : Type 0
  Next = Option AdmissionRejection → World fl lru S → Progress → World fl lru S × Answer

  -- The `match` on `try_acquire_provider`.
  unfoldable pub on_admission :
      RoutingPolicy
      → ProviderEntry fl
      → Bool
      → Bool
      → Next
      → Option AdmissionRejection
      → Progress
      → World fl lru S × Result AdmissionGuard AdmissionRejection
      → World fl lru S × Answer
  unfolding try_entry on_outcome
  on_admission policy entry is_fallback is_last next rejected p (w, err rejection) =
      next (some rejection) w p
  on_admission policy entry is_fallback is_last next rejected p (w, ok g) =
      on_outcome entry is_last (next rejected) (try_entry policy entry is_fallback g w p)

  -- The guard on the circuit.
  unfoldable pub on_allowed :
      RoutingPolicy
      → ProviderEntry fl
      → Bool
      → Bool
      → Next
      → Option AdmissionRejection
      → Progress
      → World fl lru S
      → Bool
      → World fl lru S × Answer
  unfolding decide admit on_admission
  on_allowed policy entry is_fallback is_last next rejected p w false =
      next rejected (decide fl lru S policy "circuit_open" w) p
  on_allowed policy entry is_fallback is_last next rejected p w true =
      on_admission policy entry is_fallback is_last next rejected p (admit entry w)

  -- The loop over the candidates; `is_fallback` holds for all but the first.
  unfoldable pub candidate_loop :
      RoutingPolicy
      → List (ProviderEntry fl)
      → Bool
      → Option AdmissionRejection
      → World fl lru S
      → Progress
      → World fl lru S × Answer
  unfolding on_allowed no_answer
  candidate_loop policy [] is_fallback rejected w p = (w, no_answer rejected)
  candidate_loop policy (entry ∷ rest) is_fallback rejected w p =
      let (resilience, allowed) = allow_provider_call w.resilience entry.provider.name w.now in
      on_allowed policy entry is_fallback (is_empty rest) (candidate_loop policy rest true) rejected
        p (record w { resilience = resilience }) allowed

  -- What the selection left of the index; there is always one here.
  abbrev pub keep_index : Option (PrefixAffinityIndex lru) → World fl lru S → World fl lru S
  keep_index none w = w
  keep_index (some i) w = record w { affinity = i }

  abbrev no_attempts : Progress
  no_attempts = record { attempts = []; attempt_order = 0 }

  -- From the selection on.
  unfoldable pub run_selection : CandidateSelection fl → World fl lru S → World fl lru S × Answer
  unfolding candidate_loop decide
  run_selection selection w =
      let w' = decide fl lru S selection.effective_policy selection.reason w in
      if is_empty selection.candidates
      then (w', err no_provider_available)
      else candidate_loop selection.effective_policy selection.candidates false none w' no_attempts

  unfoldable pub complete_chat :
      (String → ℕ)
      → List (ProviderEntry fl)
      → ModelPoolIndex
      → RoutingPolicy
      → PrefixAffinityConfig
      → Option (MetricsSnapshot fl)
      → World fl lru S
      → World fl lru S × Answer
  unfolding run_selection note_fingerprint candidate_providers_with_affinity
  complete_chat sha256 providers model_pools routing_policy prefix_affinity metrics_snapshot w =
      let w' = note_fingerprint fl lru S fingerprint w in
      let (selection, index) =
        candidate_providers_with_affinity fl sha256 lru providers metrics_snapshot model_pools
          (some w'.resilience) request.model routing_policy
          (some
            (record { index = w'.affinity; config = prefix_affinity; fingerprint = fingerprint }))
          w'.now in
      run_selection selection (keep_index index w')
