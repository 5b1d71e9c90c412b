-- ===== src/Fallback/Explained.antt =====
-- src/routing/fallback.rs: what the attempts of one candidate say about how its retries ended.
use rustygate.Prelude.{
  ℕ, zero, suc, ◌+◌, String, ◌≡◌, refl, ◌⊎◌, inl, inr, Bool, true, false, none, some, List, [], ◌∷◌,
  ◌++◌, arith, All, All-append, Result, ok, err,
}
use rustygate.Float.{Float}
use rustygate.Errors.{ProviderError}
use rustygate.Chat.{ChatCompletionRequest, ChatCompletionResponse}
use rustygate.Config.{RoutingPolicy}
use rustygate.Provider.{ProviderEntry}
use rustygate.Lru.{LruCache}
use rustygate.Affinity.{PrefixAffinityEntry}
use rustygate.Resilience.{RetryPolicy}
use rustygate.Metrics.{ProviderInFlightGuard}
use rustygate.Strategy.Selection.{PrefixFingerprintResult}
use rustygate.Fallback.Attempt.{
  try_next_provider, stop, ProviderAttempt, fallback_decision, provider_error_category,
  retry_backoff,
}
use rustygate.Fallback.World.{Progress, Outcome, succeeded, stopped, exhausted, World}
use rustygate.Fallback.Retry.{
  push_attempt, call, on_answer, on_error, give_up, end_call, retry_loop,
}

-- A failure that lets the next attempt go on.
abbrev pub FailedRetryably : ProviderAttempt → Type 0
FailedRetryably a =
    (a.success ≡ false)
    × ((e : ProviderError) × (a.error_category ≡ some (provider_error_category e))
        × (fallback_decision e ≡ try_next_provider))

-- Failures that let the next attempt go on, and after them one last attempt of which `P` holds.
abbrev pub EndsWith : (ProviderAttempt → Type 0) → List ProviderAttempt → Type 0
EndsWith P attempts =
    (failed : List ProviderAttempt) × (last : ProviderAttempt) × (attempts ≡ failed ++ last ∷ [])
    × All FailedRetryably failed
    × P last

abbrev pub WonBy : String → ProviderAttempt → Type 0
WonBy provider_name a =
    (a.success ≡ true) × (a.error_category ≡ none) × (a.provider_name ≡ provider_name)

abbrev pub LostBy : ProviderError → ProviderAttempt → Type 0
LostBy error a = (a.success ≡ false) × (a.error_category ≡ some (provider_error_category error))

-- What the attempts must say when a candidate's retries end so.
abbrev pub Tells : String → Outcome → List ProviderAttempt → Type 0
Tells name (succeeded response) attempts = EndsWith (WonBy name) attempts
Tells name (stopped error) attempts =
    EndsWith (LostBy error) attempts × (fallback_decision error ≡ stop)
Tells name (exhausted error) attempts =
    EndsWith (LostBy error) attempts × All FailedRetryably attempts

decision_cases :
    (e : ProviderError) → (fallback_decision e ≡ try_next_provider) ⊎ (fallback_decision e ≡ stop)
decision_cases e = ground arith

pub Result-cases :
    {A E : Type 0} (r : Result A E) → ((a : A) × (r ≡ ok a)) ⊎ ((e : E) × (r ≡ err e))
Result-cases (ok a) = inl (a, refl)
Result-cases (err e) = inr (e, refl)

module _ (fl : Float) (lru : LruCache PrefixAffinityEntry) (S : Type 0) {V F : Type 0}
    (chat_completion : ProviderEntry fl
      → ChatCompletionRequest V F
      → World fl lru S
      → World fl lru S × Result ChatCompletionResponse ProviderError)
    (sleep : ℕ → World fl lru S → World fl lru S) (fingerprint : PrefixFingerprintResult)
    (request : ChatCompletionRequest V F) where
  pushed_failure :
      (entry : ProviderEntry fl) (is_fallback : Bool) (latency : ℕ) (e : ProviderError)
      (p : Progress)
      → fallback_decision e ≡ try_next_provider
      → All FailedRetryably p.attempts
      → All FailedRetryably
          (push_attempt fl lru S chat_completion sleep fingerprint request entry is_fallback latency
            (some e)
            p).attempts
  unfolding push_attempt
  pushed_failure entry is_fallback latency e p d h =
      All-append FailedRetryably p.attempts _ h ((refl, (e, refl, d)), tt)

  on_answer-Tells :
      (policy : RoutingPolicy) (entry : ProviderEntry fl) (is_fallback : Bool) (w : World fl lru S)
      (p : Progress)
      (again : ProviderError
        → World fl lru S
        → ProviderInFlightGuard
        → Progress
        → (World fl lru S × Progress) × Outcome)
      (answer : (World fl lru S × ProviderInFlightGuard)
        × Result ChatCompletionResponse ProviderError)
      → All FailedRetryably p.attempts
      → ((e : ProviderError) (w' : World fl lru S) (g : ProviderInFlightGuard) (q : Progress)
          → EndsWith (LostBy e) q.attempts
          → All FailedRetryably q.attempts
          → Tells entry.provider.name (again e w' g q).1 (again e w' g q).0.1.attempts)
      → let r =
          on_answer fl lru S chat_completion sleep fingerprint request policy entry is_fallback w p
            again answer in
        Tells entry.provider.name r.1 r.0.1.attempts
  unfolding on_answer on_error push_attempt
  on_answer-Tells policy entry is_fallback w p again ((w', g), ok response) h k =
      (p.attempts, _, refl, h, (refl, refl, refl))
  on_answer-Tells policy entry is_fallback w p again ((w', g), err error) h k =
      elim (decision_cases error) [
        | inl d ↦
            rw (d, Tells)
              (k error w' g _ (p.attempts, _, refl, h, (refl, refl))
                (pushed_failure entry is_fallback _ error p d h))
        | inr d ↦ rw (d, Tells) ((p.attempts, _, refl, h, (refl, refl)), d)
      ]

  pub retry_loop-Tells :
      (policy : RoutingPolicy) (entry : ProviderEntry fl) (is_fallback : Bool) (retry : RetryPolicy)
      (left retry_attempt : ℕ) (w : World fl lru S) (p : Progress)
      → All FailedRetryably p.attempts
      → let r =
          retry_loop fl lru S chat_completion sleep fingerprint request policy entry is_fallback
            retry left retry_attempt w p in
        Tells entry.provider.name r.1 r.0.1.attempts
  unfolding retry_loop give_up
  retry_loop-Tells policy entry is_fallback retry zero retry_attempt w p h =
      on_answer-Tells policy entry is_fallback w p
        (give_up fl lru S chat_completion sleep fingerprint request entry)
        (call fl lru S chat_completion sleep fingerprint request entry w) h
        (λ e w' g q ends all. (ends, all))
  retry_loop-Tells policy entry is_fallback retry (suc left) retry_attempt w p h =
      on_answer-Tells policy entry is_fallback w p
        (λ e w' g q.
          retry_loop fl lru S chat_completion sleep fingerprint request policy entry is_fallback
            retry left (retry_attempt + 1)
            (end_call fl lru S chat_completion sleep fingerprint request g
              (sleep (retry_backoff retry (retry_attempt + 1) entry.provider.name) w'))
            q)
        (call fl lru S chat_completion sleep fingerprint request entry w) h
        (λ e w' g q ends all.
          retry_loop-Tells policy entry is_fallback retry left (retry_attempt + 1) _ q all)
