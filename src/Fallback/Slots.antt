-- ===== src/Fallback/Slots.antt =====
-- src/routing/fallback.rs: the provider slots that `complete_chat` takes are given back.
use rustygate.Prelude.{
  ℕ, String, ◌≡◌, refl, sym, ap, subst, ◌∙◌, inl, inr, Bool, true, false, Option, none, some, List,
  [], ◌∷◌, arith, Result, is_empty, Bool-cases, either_branch, if◌then◌else◌,
}
use rustygate.Float.{Float}
use rustygate.Errors.{ProviderError}
use rustygate.Chat.{ChatCompletionRequest, ChatCompletionResponse}
use rustygate.Config.{RoutingPolicy, PrefixAffinityConfig}
use rustygate.Provider.{ProviderEntry}
use rustygate.Pools.{ModelPoolIndex}
use rustygate.Lru.{LruCache}
use rustygate.Affinity.{PrefixAffinityEntry, PrefixAffinityIndex}
use rustygate.Resilience.{policy_for}
use rustygate.Admission.{
  AdmissionController, AdmissionSlot, AdmissionRejection, AdmissionGuard, try_acquire_provider,
  counter_of, finish, new_guard,
}
use rustygate.Admission.Counters.{counter_of-release, limits-release}
use rustygate.Admission.Acquire.{HasWords, limit_of_same}
use rustygate.Admission.Calls.{AdmitsProvider, provider_cases}
use rustygate.Strategy.Scores.{MetricsSnapshot}
use rustygate.Strategy.Selection.{
  PrefixFingerprintResult, CandidateSelection, candidate_providers_with_affinity,
}
use rustygate.Fallback.World.{
  FallbackSuccess, FallbackError, Progress, succeeded, stopped, exhausted, World, Run, decide,
  note_fingerprint,
}
use rustygate.Fallback.Chat.{
  on_outcome, on_allowed, on_admission, admit, try_entry, candidate_loop, run_selection,
  complete_chat, keep_index,
}
use rustygate.Fallback.Quiet.{retry_loop-admission}

-- The same limits, and the same count of each slot.
pub record IsRestored (a a' : AdmissionController) : Type 0 where
  pub same_limits : a'.limits ≡ a.limits
  pub same_count : (t : AdmissionSlot) → counter_of a' t ≡ counter_of a t

IsRestored-refl : (a : AdmissionController) → IsRestored a a
IsRestored-refl a = record { same_limits = refl; same_count = λ t. refl }

IsRestored-trans : (a b c : AdmissionController) → IsRestored a b → IsRestored b c → IsRestored a c
IsRestored-trans a b c h k = record {
  same_limits = k.same_limits ∙ h.same_limits;
  same_count = λ t. k.same_count t ∙ h.same_count t;
}

HasWords-restored : (a b : AdmissionController) → IsRestored a b → HasWords a → HasWords b
HasWords-restored a b h w t l e = w t l (sym (limit_of_same a b h.same_limits t) ∙ e)

-- A slot that is taken and given back.
finished-IsRestored :
    (a : AdmissionController) (p : String) (k : AdmitsProvider a p)
    → IsRestored a (finish (try_acquire_provider a p).0 (new_guard k.slots)).0
unfolding finish
finished-IsRestored a p k =
    let a' = (try_acquire_provider a p).0 in
    record {
      same_limits = limits-release a' k.slots ∙ k.takes.same_limits;
      same_count = λ t. omega (arith, counter_of-release a' k.slots t, k.takes.counted t);
    }

module _ (fl : Float) (lru : LruCache PrefixAffinityEntry) (S : Type 0) {V F : Type 0}
    (chat_completion : ProviderEntry fl
      → ChatCompletionRequest V F
      → World fl lru S
      → World fl lru S × Result ChatCompletionResponse ProviderError)
    (sleep : ℕ → World fl lru S → World fl lru S) (fingerprint : PrefixFingerprintResult)
    (request : ChatCompletionRequest V F)
    (quiet_call : (e : ProviderEntry fl) (r : ChatCompletionRequest V F) (w : World fl lru S)
      → (chat_completion e r w).0.admission ≡ w.admission)
    (quiet_sleep : (ms : ℕ) (w : World fl lru S) → (sleep ms w).admission ≡ w.admission) where
  try_entry-admission :
      (policy : RoutingPolicy) (entry : ProviderEntry fl) (is_fallback : Bool) (g : AdmissionGuard)
      (w : World fl lru S) (p : Progress)
      → (try_entry fl lru S chat_completion sleep fingerprint request policy entry is_fallback g w
          p).0.0.admission
        ≡ (finish w.admission g).0
  unfolding try_entry decide
  try_entry-admission policy entry is_fallback g w p =
      let retry = (policy_for w.resilience entry.provider.name).retry in
      ap (λ a. (finish a g).0)
        (retry_loop-admission fl lru S chat_completion sleep fingerprint request quiet_call
            quiet_sleep policy entry is_fallback retry retry.max_retries 0 _ p
          ∙ either_branch (λ (v : World fl lru S). v.admission ≡ w.admission) is_fallback refl refl)

  -- The candidates that are left restore the admission state, from any world with 64-bit limits.
  abbrev Restores :
      (Option AdmissionRejection
        → World fl lru S
        → Progress
        → World fl lru S × Result (FallbackSuccess fl) FallbackError)
      → Type 0
  Restores next =
      (r : Option AdmissionRejection) (v : World fl lru S) (q : Progress)
      → HasWords v.admission
      → IsRestored v.admission (next r v q).0.admission

  on_outcome-IsRestored :
      (entry : ProviderEntry fl) (is_last : Bool)
      (next : Option AdmissionRejection
        → World fl lru S
        → Progress
        → World fl lru S × Result (FallbackSuccess fl) FallbackError)
      (rejected : Option AdmissionRejection) (a : AdmissionController) (run : Run fl lru S)
      → HasWords a
      → IsRestored a run.0.0.admission
      → Restores next
      → IsRestored a
          (on_outcome fl lru S chat_completion sleep fingerprint request entry is_last
            (next rejected)
            run).0.admission
  unfolding on_outcome
  on_outcome-IsRestored entry is_last next rejected a ((w, p), succeeded response) hw h k = h
  on_outcome-IsRestored entry is_last next rejected a ((w, p), stopped error) hw h k = h
  on_outcome-IsRestored entry true next rejected a ((w, p), exhausted error) hw h k = h
  on_outcome-IsRestored entry false next rejected a ((w, p), exhausted error) hw h k =
      IsRestored-trans _ _ _ h (k rejected w p (HasWords-restored a w.admission h hw))

  on_allowed-IsRestored :
      (policy : RoutingPolicy) (entry : ProviderEntry fl) (is_fallback is_last : Bool)
      (next : Option AdmissionRejection
        → World fl lru S
        → Progress
        → World fl lru S × Result (FallbackSuccess fl) FallbackError)
      (rejected : Option AdmissionRejection) (p : Progress) (w : World fl lru S) (allowed : Bool)
      → HasWords w.admission
      → Restores next
      → IsRestored w.admission
          (on_allowed fl lru S chat_completion sleep fingerprint request policy entry is_fallback
            is_last next rejected p w allowed).0.admission
  unfolding on_allowed on_admission admit decide
  on_allowed-IsRestored policy entry is_fallback is_last next rejected p w false hw k =
      k rejected _ p hw
  on_allowed-IsRestored policy entry is_fallback is_last next rejected p w true hw k =
      elim (provider_cases w.admission entry.provider.name hw) [
        | inl k' ↦
            let g = new_guard k'.slots in
            let w' : World fl lru S = record w {
              admission = (try_acquire_provider w.admission entry.provider.name).0;
            } in
            rw (k'.result, on_admission)
              (on_outcome-IsRestored entry is_last next rejected w.admission
                (try_entry fl lru S chat_completion sleep fingerprint request policy entry
                  is_fallback g w' p)
                hw
                (rw (try_entry-admission policy entry is_fallback g w' p)
                  (finished-IsRestored w.admission entry.provider.name k'))
                k)
        | inr (r, e) ↦
            let v = (admit fl lru S chat_completion sleep fingerprint request entry w).0 in
            let same : v.admission ≡ w.admission = ap (λ x. x.0) e in
            rw (e, on_admission)
              (subst (λ a. IsRestored a (next (some r) v p).0.admission) same
                (k (some r) v p (subst (λ a. HasWords a) (sym same) hw)))
      ]

  candidate_loop-IsRestored :
      (policy : RoutingPolicy) (entries : List (ProviderEntry fl)) (is_fallback : Bool)
      → Restores (
          candidate_loop fl lru S chat_completion sleep fingerprint request policy entries
            is_fallback)
  unfolding candidate_loop
  candidate_loop-IsRestored policy [] is_fallback r w p hw = IsRestored-refl w.admission
  candidate_loop-IsRestored policy (entry ∷ rest) is_fallback r w p hw =
      on_allowed-IsRestored policy entry is_fallback (is_empty rest)
        (candidate_loop fl lru S chat_completion sleep fingerprint request policy rest true) r p _ _
        hw (candidate_loop-IsRestored policy rest true)

  run_selection-IsRestored :
      (s : CandidateSelection fl) (w : World fl lru S)
      → HasWords w.admission
      → IsRestored w.admission
          (run_selection fl lru S chat_completion sleep fingerprint request s w).0.admission
  unfolding run_selection decide
  run_selection-IsRestored s w hw = elim (Bool-cases (is_empty s.candidates)) [
    | inl e ↦ rw (e, if◌then◌else◌) (IsRestored-refl w.admission)
    | inr e ↦ rw e (candidate_loop-IsRestored s.effective_policy s.candidates false none _ _ hw)
  ]

  kept-admission :
      (i : Option (PrefixAffinityIndex lru)) (w : World fl lru S)
      → (keep_index fl lru S chat_completion sleep fingerprint request i w).admission ≡ w.admission
  kept-admission none w = refl
  kept-admission (some i) w = refl

  -- Where the awaited calls leave the admission state alone, that is, where no other request comes or
  -- goes meanwhile, a chat completion gives back every slot that it took, however it ends: the limits
  -- and the count of each slot are what they were before. The limits are taken to be 64-bit values.
  pub complete_chat-IsRestored :
      (sha256 : String → ℕ) (providers : List (ProviderEntry fl)) (pools : ModelPoolIndex)
      (policy : RoutingPolicy) (affinity : PrefixAffinityConfig)
      (snapshot : Option (MetricsSnapshot fl)) (w : World fl lru S)
      → HasWords w.admission
      → IsRestored w.admission
          (complete_chat fl lru S chat_completion sleep fingerprint request sha256 providers pools
            policy affinity snapshot w).0.admission
  unfolding complete_chat note_fingerprint
  complete_chat-IsRestored sha256 providers pools policy affinity snapshot w hw =
      let w' = note_fingerprint fl lru S fingerprint w in
      let picked =
        candidate_providers_with_affinity fl sha256 lru providers snapshot pools
          (some w'.resilience) request.model policy
          (some (record { index = w'.affinity; config = affinity; fingerprint = fingerprint }))
          w'.now in
      let v = keep_index fl lru S chat_completion sleep fingerprint request picked.1 w' in
      let same : v.admission ≡ w.admission = kept-admission picked.1 w' in
      subst
        (λ a.
          IsRestored a
            (run_selection fl lru S chat_completion sleep fingerprint request picked.0
              v).0.admission)
        same (run_selection-IsRestored picked.0 v (subst (λ a. HasWords a) (sym same) hw))
