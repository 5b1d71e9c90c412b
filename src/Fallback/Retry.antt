-- ===== src/Fallback/Retry.antt =====
-- src/routing/fallback.rs: the attempts of one candidate in `complete_chat`. Two calls are awaited, the
-- provider's and the sleep: each is a parameter that maps a world to the world after it, so that
-- other requests may change anything shared meanwhile. The request's fingerprint is a parameter too.
use rustygate.Prelude.{
  ℕ, zero, suc, ◌+◌, ◌-◌, ◌/◌, Bool, true, false, Option, none, some, [], ◌∷◌, ◌++◌, Result, ok,
  err, saturating_add_u32,
}
use rustygate.Float.{Float}
use rustygate.Errors.{ProviderError}
use rustygate.Chat.{ChatCompletionRequest, ChatCompletionResponse}
use rustygate.Config.{RoutingPolicy}
use rustygate.Provider.{ProviderEntry}
use rustygate.Lru.{LruCache}
use rustygate.Affinity.{PrefixAffinityEntry}
use rustygate.Resilience.{RetryPolicy, record_success, record_failure}
use rustygate.Metrics.{
  MetricsRegistry, ProviderLoadEstimate, ProviderInFlightGuard, record_routing_decision,
  record_prefix_fingerprint,
}
use rustygate.Metrics
use rustygate.Strategy.Selection.{PrefixFingerprintResult}
use rustygate.Fallback.Attempt.{
  RetryDecision, try_next_provider, stop, ProviderAttempt, fallback_decision,
  provider_error_category, retry_backoff,
}
use rustygate.Fallback.World.{
  Progress, request_for_provider, provider_load_estimate, succeeded, stopped, exhausted, World,
  decide, record_prefix_affinity_selection, Run,
}

module _ (fl : Float) (lru : LruCache PrefixAffinityEntry) (S : Type 0) {V F : Type 0}
    (chat_completion : ProviderEntry fl
      → ChatCompletionRequest V F
      → World fl lru S
      → World fl lru S × Result ChatCompletionResponse ProviderError)
    (sleep : ℕ → World fl lru S → World fl lru S) (fingerprint : PrefixFingerprintResult)
    (request : ChatCompletionRequest V F) where
  -- An attempt's record.
  abbrev attempt_of : ProviderEntry fl → Bool → ℕ → ℕ → Option ProviderError → ProviderAttempt
  attempt_of entry is_fallback order latency none = record {
    provider_name = entry.provider.name;
    attempt_order = order;
    latency_ms = latency;
    success = true;
    is_fallback = is_fallback;
    error_category = none;
  }
  attempt_of entry is_fallback order latency (some error) = record {
    provider_name = entry.provider.name;
    attempt_order = order;
    latency_ms = latency;
    success = false;
    is_fallback = is_fallback;
    error_category = some (provider_error_category error);
  }

  unfoldable pub push_attempt :
      ProviderEntry fl → Bool → ℕ → Option ProviderError → Progress → Progress
  unfolding provider_error_category
  push_attempt entry is_fallback latency error p =
      let order = saturating_add_u32 p.attempt_order 1 in
      record {
        attempts = p.attempts ++ attempt_of entry is_fallback order latency error ∷ [];
        attempt_order = order;
      }

  -- The in-flight guard is made before the call and dropped at the end of the round.
  abbrev begin_call : ProviderEntry fl → World fl lru S → World fl lru S × ProviderInFlightGuard
  begin_call entry w =
      let (m, g) = Metrics.guard w.metrics entry.provider.name (provider_load_estimate request) in
      (record w { metrics = m }, g)

  abbrev pub end_call : ProviderInFlightGuard → World fl lru S → World fl lru S
  end_call g w = record w { metrics = (Metrics.finish w.metrics g).0 }

  unfoldable pub call :
      ProviderEntry fl
      → World fl lru S
      → (World fl lru S × ProviderInFlightGuard) × Result ChatCompletionResponse ProviderError
  unfolding request_for_provider
  call entry w =
      let (w', g) = begin_call entry w in
      let (w'', answer) =
        chat_completion entry (request_for_provider request entry.provider.model) w' in
      ((w'', g), answer)

  abbrev elapsed_ms : World fl lru S → World fl lru S → ℕ
  elapsed_ms before after = (after.now - before.now) / 1_000_000

  -- The branch of a response.
  unfoldable pub on_response : RoutingPolicy → ProviderEntry fl → World fl lru S → World fl lru S
  unfolding decide record_prefix_affinity_selection
  on_response policy entry w =
      record_prefix_affinity_selection fl lru S fingerprint entry.provider.name policy (
        decide fl lru S policy "selected"
          (record w { resilience = record_success w.resilience entry.provider.name }))

  unfoldable pub note_failure : ProviderEntry fl → World fl lru S → World fl lru S
  note_failure entry w = record w {
    resilience = record_failure w.resilience entry.provider.name w.now;
  }

  -- The error branch: `again` is what a failure that may be retried leads to.
  unfoldable pub on_error :
      (ProviderError → World fl lru S → ProviderInFlightGuard → Progress → Run fl lru S)
      → ProviderError
      → RetryDecision
      → World fl lru S
      → ProviderInFlightGuard
      → Progress
      → Run fl lru S
  on_error again error try_next_provider w g p = again error w g p
  on_error again error stop w g p = ((end_call g w, p), stopped error)

  -- The rest of a round, after the provider's answer; the call began at the time of `w`.
  unfoldable pub on_answer :
      RoutingPolicy
      → ProviderEntry fl
      → Bool
      → World fl lru S
      → Progress
      → (ProviderError → World fl lru S → ProviderInFlightGuard → Progress → Run fl lru S)
      → (World fl lru S × ProviderInFlightGuard) × Result ChatCompletionResponse ProviderError
      → Run fl lru S
  unfolding on_response push_attempt on_error fallback_decision
  on_answer policy entry is_fallback w p again ((w', g), ok response) = (
    (
      end_call g (on_response policy entry w'),
      push_attempt entry is_fallback (elapsed_ms w w') none p,
    ),
    succeeded response,
  )
  on_answer policy entry is_fallback w p again ((w', g), err error) =
      on_error again error (fallback_decision error) w' g
        (push_attempt entry is_fallback (elapsed_ms w w') (some error) p)

  -- No retry is left.
  unfoldable pub give_up :
      ProviderEntry fl
      → ProviderError
      → World fl lru S
      → ProviderInFlightGuard
      → Progress
      → Run fl lru S
  unfolding note_failure
  give_up entry error w g p = ((end_call g (note_failure entry w), p), exhausted error)

  -- The retries, from the number `retry_attempt` on, with `left` more after this one.
  unfoldable pub retry_loop :
      RoutingPolicy
      → ProviderEntry fl
      → Bool
      → RetryPolicy
      → ℕ
      → ℕ
      → World fl lru S
      → Progress
      → Run fl lru S
  unfolding call on_answer give_up retry_backoff
  retry_loop policy entry is_fallback retry zero retry_attempt w p =
      on_answer policy entry is_fallback w p (give_up entry) (call entry w)
  retry_loop policy entry is_fallback retry (suc left) retry_attempt w p =
      on_answer policy entry is_fallback w p
        (λ error w' g p'.
          retry_loop policy entry is_fallback retry left (retry_attempt + 1)
            (end_call g (sleep (retry_backoff retry (retry_attempt + 1) entry.provider.name) w'))
            p')
        (call entry w)
