-- ===== src/Fallback/Report.antt =====
-- src/routing/fallback.rs: what `complete_chat` answers, and what its attempts say about it.
use rustygate.Prelude.{
  ℕ, String, inl, inr, Bool, true, false, Option, none, some, List, [], ◌∷◌, All, Result, ok, err,
  is_empty, Bool-cases,
}
use rustygate.Float.{Float}
use rustygate.Errors.{ProviderError}
use rustygate.Chat.{ChatCompletionRequest, ChatCompletionResponse}
use rustygate.Config.{RoutingPolicy, PrefixAffinityConfig}
use rustygate.Provider.{ProviderEntry}
use rustygate.Pools.{ModelPoolIndex}
use rustygate.Lru.{LruCache}
use rustygate.Affinity.{PrefixAffinityEntry}
use rustygate.Resilience.{policy_for}
use rustygate.Admission.{AdmissionRejection, AdmissionGuard}
use rustygate.Strategy.Scores.{MetricsSnapshot}
use rustygate.Strategy.Selection.{PrefixFingerprintResult, CandidateSelection}
use rustygate.Fallback.World.{
  FallbackSuccess, FallbackError, no_provider_available, admission_rejected, provider_failed,
  Progress, Outcome, succeeded, stopped, exhausted, World,
}
use rustygate.Fallback.Chat.{
  on_outcome, on_allowed, on_admission, success_of, no_answer, admit, try_entry, candidate_loop,
  run_selection, complete_chat,
}
use rustygate.Fallback.Explained.{
  FailedRetryably, EndsWith, WonBy, LostBy, Tells, Result-cases, retry_loop-Tells,
}

module _ (fl : Float) where
  -- What an answer's attempts must say.
  abbrev pub Reports : Result (FallbackSuccess fl) FallbackError → Type 0
  Reports (ok s) = EndsWith (WonBy s.provider_name) s.attempts
  Reports (err no_provider_available) = Unit
  Reports (err (admission_rejected rejection)) = Unit
  Reports (err (provider_failed error attempts)) = EndsWith (LostBy error) attempts

module _ (fl : Float) (lru : LruCache PrefixAffinityEntry) (S : Type 0) {V F : Type 0}
    (chat_completion : ProviderEntry fl
      → ChatCompletionRequest V F
      → World fl lru S
      → World fl lru S × Result ChatCompletionResponse ProviderError)
    (sleep : ℕ → World fl lru S → World fl lru S) (fingerprint : PrefixFingerprintResult)
    (request : ChatCompletionRequest V F) where
  try_entry-Tells :
      (policy : RoutingPolicy) (entry : ProviderEntry fl) (is_fallback : Bool) (g : AdmissionGuard)
      (w : World fl lru S) (p : Progress)
      → All FailedRetryably p.attempts
      → let r =
          try_entry fl lru S chat_completion sleep fingerprint request policy entry is_fallback g w
            p in
        Tells entry.provider.name r.1 r.0.1.attempts
  unfolding try_entry
  try_entry-Tells policy entry is_fallback g w p h =
      let retry = (policy_for w.resilience entry.provider.name).retry in
      retry_loop-Tells fl lru S chat_completion sleep fingerprint request policy entry is_fallback
        retry retry.max_retries 0 _ p h

  on_outcome-Reports :
      (entry : ProviderEntry fl) (is_last : Bool)
      (next : World fl lru S
        → Progress
        → World fl lru S × Result (FallbackSuccess fl) FallbackError)
      (r : (World fl lru S × Progress) × Outcome)
      → Tells entry.provider.name r.1 r.0.1.attempts
      → ((w : World fl lru S) (q : Progress)
          → All FailedRetryably q.attempts
          → Reports fl (next w q).1)
      → Reports fl
          (on_outcome fl lru S chat_completion sleep fingerprint request entry is_last next r).1
  unfolding on_outcome success_of
  on_outcome-Reports entry is_last next ((w, p), succeeded response) t k = t
  on_outcome-Reports entry is_last next ((w, p), stopped error) t k = t.0
  on_outcome-Reports entry true next ((w, p), exhausted error) t k = t.0
  on_outcome-Reports entry false next ((w, p), exhausted error) t k = k w p t.1

  on_allowed-Reports :
      (policy : RoutingPolicy) (entry : ProviderEntry fl) (is_fallback is_last : Bool)
      (next : Option AdmissionRejection
        → World fl lru S
        → Progress
        → World fl lru S × Result (FallbackSuccess fl) FallbackError)
      (rejected : Option AdmissionRejection) (p : Progress) (w : World fl lru S) (allowed : Bool)
      → All FailedRetryably p.attempts
      → ((r : Option AdmissionRejection) (v : World fl lru S) (q : Progress)
          → All FailedRetryably q.attempts
          → Reports fl (next r v q).1)
      → Reports fl
          (on_allowed fl lru S chat_completion sleep fingerprint request policy entry is_fallback
            is_last next rejected p w allowed).1
  unfolding on_allowed on_admission
  on_allowed-Reports policy entry is_fallback is_last next rejected p w false h k = k rejected _ p h
  on_allowed-Reports policy entry is_fallback is_last next rejected p w true h k =
      elim (Result-cases (admit fl lru S chat_completion sleep fingerprint request entry w).1) [
        | inr (r, e) ↦ rw (e, on_admission, Reports) (k (some r) _ p h)
        | inl (g, e) ↦
            rw (e, on_admission)
              (on_outcome-Reports entry is_last (next rejected) _
                (try_entry-Tells policy entry is_fallback g _ p h) (k rejected))
      ]

  candidate_loop-Reports :
      (policy : RoutingPolicy) (entries : List (ProviderEntry fl)) (is_fallback : Bool)
      (rejected : Option AdmissionRejection) (w : World fl lru S) (p : Progress)
      → All FailedRetryably p.attempts
      → Reports fl
          (candidate_loop fl lru S chat_completion sleep fingerprint request policy entries
            is_fallback rejected w p).1
  unfolding candidate_loop no_answer
  candidate_loop-Reports policy [] is_fallback none w p h = tt
  candidate_loop-Reports policy [] is_fallback (some r) w p h = tt
  candidate_loop-Reports policy (entry ∷ rest) is_fallback rejected w p h =
      on_allowed-Reports policy entry is_fallback (is_empty rest)
        (candidate_loop fl lru S chat_completion sleep fingerprint request policy rest true)
        rejected p _ _ h (candidate_loop-Reports policy rest true)

  run_selection-Reports :
      (s : CandidateSelection fl) (w : World fl lru S)
      → Reports fl (run_selection fl lru S chat_completion sleep fingerprint request s w).1
  unfolding run_selection
  run_selection-Reports s w = elim (Bool-cases (is_empty s.candidates)) [
    | inl e ↦ rw (e, Reports) tt
    | inr e ↦ rw e (candidate_loop-Reports s.effective_policy s.candidates false none _ _ tt)
  ]

  -- Whatever the providers answer and whatever other requests do meanwhile: in a success the last
  -- attempt is the one that succeeded, by the provider that is named; in a provider failure the last
  -- attempt failed with the error that is returned; and each earlier attempt, in both, failed with an
  -- error after which the next attempt is tried.
  pub complete_chat-Reports :
      (sha256 : String → ℕ) (providers : List (ProviderEntry fl)) (pools : ModelPoolIndex)
      (policy : RoutingPolicy) (affinity : PrefixAffinityConfig)
      (snapshot : Option (MetricsSnapshot fl)) (w : World fl lru S)
      → Reports fl
          (complete_chat fl lru S chat_completion sleep fingerprint request sha256 providers pools
            policy affinity snapshot w).1
  unfolding complete_chat
  complete_chat-Reports sha256 providers pools policy affinity snapshot w =
      run_selection-Reports _ _
