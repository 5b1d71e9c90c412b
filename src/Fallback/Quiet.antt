-- ===== src/Fallback/Quiet.antt =====
-- src/routing/fallback.rs: the attempts of one candidate leave the admission state as it is, where the
-- awaited calls do.
use rustygate.Prelude.{
  ℕ, zero, suc, ◌+◌, String, ◌≡◌, refl, ◌∙◌, Bool, Option, none, some, Result, ok, err,
  either_branch, ◌&&◌,
}
use rustygate.Float.{Float}
use rustygate.Errors.{ProviderError}
use rustygate.Chat.{ChatCompletionRequest, ChatCompletionResponse}
use rustygate.Config.{RoutingPolicy}
use rustygate.Provider.{ProviderEntry}
use rustygate.Lru.{LruCache}
use rustygate.Affinity.{PrefixAffinityEntry}
use rustygate.Resilience.{RetryPolicy}
use rustygate.Admission.{AdmissionController}
use rustygate.Metrics.{ProviderInFlightGuard}
use rustygate.Strategy.Selection.{PrefixFingerprintResult, is_prefix_affinity, is_high_confidence}
use rustygate.Fallback.Attempt.{
  RetryDecision, try_next_provider, stop, fallback_decision, retry_backoff,
}
use rustygate.Fallback.World.{
  Progress, World, Run, decide, record_prefix_affinity_selection, remember_if_known,
}
use rustygate.Fallback.Retry.{
  call, on_answer, on_error, on_response, give_up, note_failure, end_call, retry_loop,
}

module _ (fl : Float) (lru : LruCache PrefixAffinityEntry) (S : Type 0) {V F : Type 0}
    (chat_completion : ProviderEntry fl
      → ChatCompletionRequest V F
      → World fl lru S
      → World fl lru S × Result ChatCompletionResponse ProviderError)
    (sleep : ℕ → World fl lru S → World fl lru S) (fingerprint : PrefixFingerprintResult)
    (request : ChatCompletionRequest V F)
    (quiet_call : (e : ProviderEntry fl) (r : ChatCompletionRequest V F) (w : World fl lru S)
      → (chat_completion e r w).0.admission ≡ w.admission)
    (quiet_sleep : (ms : ℕ) (w : World fl lru S) → (sleep ms w).admission ≡ w.admission) where
  remembered-admission :
      (o : Option String) (name : String) (w : World fl lru S)
      → (remember_if_known fl lru S o name w).admission ≡ w.admission
  remembered-admission none name w = refl
  remembered-admission (some f) name w = refl

  recorded-admission :
      (name : String) (policy : RoutingPolicy) (w : World fl lru S)
      → (record_prefix_affinity_selection fl lru S fingerprint name policy w).admission
        ≡ w.admission
  unfolding record_prefix_affinity_selection
  recorded-admission name policy w =
      either_branch (λ (v : World fl lru S). v.admission ≡ w.admission)
        (is_prefix_affinity policy && is_high_confidence fingerprint)
        (remembered-admission fingerprint.fingerprint name w) refl

  on_response-admission :
      (policy : RoutingPolicy) (entry : ProviderEntry fl) (w : World fl lru S)
      → (on_response fl lru S chat_completion sleep fingerprint request policy entry w).admission
        ≡ w.admission
  unfolding on_response decide
  on_response-admission policy entry w = recorded-admission entry.provider.name policy _

  on_error-admission :
      (a : AdmissionController)
      (again : ProviderError → World fl lru S → ProviderInFlightGuard → Progress → Run fl lru S)
      (error : ProviderError) (decision : RetryDecision) (w : World fl lru S)
      (g : ProviderInFlightGuard) (p : Progress)
      → w.admission ≡ a
      → (again error w g p).0.0.admission ≡ a
      → (on_error fl lru S chat_completion sleep fingerprint request again error decision w g
          p).0.0.admission
        ≡ a
  unfolding on_error
  on_error-admission a again error try_next_provider w g p h k = k
  on_error-admission a again error stop w g p h k = h

  on_answer-admission :
      (policy : RoutingPolicy) (entry : ProviderEntry fl) (is_fallback : Bool) (w : World fl lru S)
      (p : Progress)
      (again : ProviderError → World fl lru S → ProviderInFlightGuard → Progress → Run fl lru S)
      (answer : (World fl lru S × ProviderInFlightGuard)
        × Result ChatCompletionResponse ProviderError)
      → answer.0.0.admission ≡ w.admission
      → ((e : ProviderError) (w' : World fl lru S) (g : ProviderInFlightGuard) (q : Progress)
          → w'.admission ≡ w.admission
          → (again e w' g q).0.0.admission ≡ w.admission)
      → (on_answer fl lru S chat_completion sleep fingerprint request policy entry is_fallback w p
          again answer).0.0.admission
        ≡ w.admission
  unfolding on_answer
  on_answer-admission policy entry is_fallback w p again ((w', g), ok response) h k =
      on_response-admission policy entry w' ∙ h
  on_answer-admission policy entry is_fallback w p again ((w', g), err error) h k =
      on_error-admission w.admission again error (fallback_decision error) w' g _ h
        (k error w' g _ h)

  pub retry_loop-admission :
      (policy : RoutingPolicy) (entry : ProviderEntry fl) (is_fallback : Bool) (retry : RetryPolicy)
      (left retry_attempt : ℕ) (w : World fl lru S) (p : Progress)
      → (retry_loop fl lru S chat_completion sleep fingerprint request policy entry is_fallback
          retry left retry_attempt w p).0.0.admission
        ≡ w.admission
  unfolding retry_loop give_up note_failure call
  retry_loop-admission policy entry is_fallback retry zero retry_attempt w p =
      on_answer-admission policy entry is_fallback w p
        (give_up fl lru S chat_completion sleep fingerprint request entry)
        (call fl lru S chat_completion sleep fingerprint request entry w) (quiet_call entry _ _)
        (λ e w' g q h. h)
  retry_loop-admission policy entry is_fallback retry (suc left) retry_attempt w p =
      on_answer-admission policy entry is_fallback w p
        (λ e w' g q.
          retry_loop fl lru S chat_completion sleep fingerprint request policy entry is_fallback
            retry left (retry_attempt + 1)
            (end_call fl lru S chat_completion sleep fingerprint request g
              (sleep (retry_backoff retry (retry_attempt + 1) entry.provider.name) w'))
            q)
        (call fl lru S chat_completion sleep fingerprint request entry w) (quiet_call entry _ _)
        (λ e w' g q h.
          retry_loop-admission policy entry is_fallback retry left (retry_attempt + 1)
            (end_call fl lru S chat_completion sleep fingerprint request g
              (sleep (retry_backoff retry (retry_attempt + 1) entry.provider.name) w'))
            q
          ∙ quiet_sleep _ w'
          ∙ h)
