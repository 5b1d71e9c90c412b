-- ===== src/Metrics/Attempts.antt =====
-- src/telemetry/metrics.rs: recording the attempts at providers keeps the totals in agreement.
use rustygate.Prelude.{
  ℕ, String, ◌≡◌, Option, none, some, List, [], ◌∷◌, wrapping_add_u64, str_eq, if◌then◌else◌,
  either_branch,
}
use rustygate.Fallback.Attempt.{ProviderAttempt, ErrorCategory}
use rustygate.Metrics.{MetricsRegistry, add_to}
use rustygate.Metrics.InFlight.{count}
use rustygate.Metrics.Requests.{
  record_provider_latency_sample, record_provider_error_sample, record_error_category,
  record_attempt_outcome, record_fallback, record_attempt, record_provider_attempts, count_attempt,
}
use rustygate.Metrics.Tally.{
  HasShortSamples, IsConsistent, push_sample_of-AreShort, count-add_to, tallied_left, tallied_right,
  tallied_both,
}

module _ {F : Type 0} where
  -- The attempt at a provider is counted, and its outcome not yet.
  abbrev IsCounted : MetricsRegistry F → String → Type 0
  IsCounted m name =
      (m.total_requests ≡ wrapping_add_u64 m.successful_requests m.failed_requests)
      × (((k : String)
            → count m.requests_by_provider k ≡ (
                if str_eq name k
                then wrapping_add_u64
                    (wrapping_add_u64 (count m.successes_by_provider k)
                      (count m.errors_by_provider k))
                    1
                else wrapping_add_u64 (count m.successes_by_provider k)
                    (count m.errors_by_provider k)))
          × HasShortSamples m)

  counted :
      (m : MetricsRegistry F) (attempt : ProviderAttempt)
      → IsConsistent m
      → IsCounted (count_attempt m attempt) attempt.provider_name
  unfolding count_attempt
  counted m attempt ((t, n), s) =
      let name = attempt.provider_name in
      (
        t,
        (
          (λ k.
              tallied_both (str_eq name k) _ _ _ (n k)
                (count-add_to m.requests_by_provider name k)),
          s,
        ),
      )

  succeeded :
      (m : MetricsRegistry F) (name : String)
      → IsCounted m name
      → IsConsistent (record m { successes_by_provider = add_to m.successes_by_provider name 1 })
  succeeded m name (t, (n, s)) = (
    (
      t,
      (λ k.
          tallied_left (str_eq name k) _ _ _ _ (n k) (count-add_to m.successes_by_provider name k)),
    ),
    s,
  )

  failed :
      (m : MetricsRegistry F) (name : String)
      → IsCounted m name
      → IsConsistent (record m { errors_by_provider = add_to m.errors_by_provider name 1 })
  failed m name (t, (n, s)) = (
    (
      t,
      (λ k. tallied_right (str_eq name k) _ _ _ _ (n k) (count-add_to m.errors_by_provider name k)),
    ),
    s,
  )

  category-IsConsistent :
      (m : MetricsRegistry F) (name : String) (category : Option ErrorCategory)
      → IsConsistent m
      → IsConsistent (record_error_category m name category)
  unfolding record_error_category record_provider_error_sample
  category-IsConsistent m name none v = v
  category-IsConsistent m name (some c) (t, (a, (b, (d, (e, f))))) =
      (t, (a, (b, (d, (e, push_sample_of-AreShort m.provider_error_samples name _ f)))))

  outcome-IsConsistent :
      (m : MetricsRegistry F) (attempt : ProviderAttempt)
      → IsCounted m attempt.provider_name
      → IsConsistent (record_attempt_outcome m attempt)
  unfolding record_attempt_outcome
  outcome-IsConsistent m attempt v =
      either_branch (λ (m' : MetricsRegistry F). IsConsistent m') attempt.success
        (succeeded m attempt.provider_name v)
        (category-IsConsistent _ attempt.provider_name attempt.error_category
          (failed m attempt.provider_name v))

  fallback-IsConsistent :
      (m : MetricsRegistry F) (attempt : ProviderAttempt)
      → IsConsistent m
      → IsConsistent (record_fallback m attempt)
  unfolding record_fallback
  fallback-IsConsistent m attempt v =
      either_branch (λ (m' : MetricsRegistry F). IsConsistent m') attempt.is_fallback v v

  latency-IsCounted :
      (m : MetricsRegistry F) (name : String) (ms : ℕ)
      → IsCounted m name
      → IsCounted (record_provider_latency_sample m name ms) name
  unfolding record_provider_latency_sample
  latency-IsCounted m name ms (t, (n, (a, (b, (d, e))))) =
      (t, (n, (a, (b, (push_sample_of-AreShort m.provider_latency_samples_ms name ms d, e)))))

  attempt-IsConsistent :
      (m : MetricsRegistry F) (attempt : ProviderAttempt)
      → IsConsistent m
      → IsConsistent (record_attempt m attempt)
  unfolding record_attempt
  attempt-IsConsistent m attempt v =
      let name = attempt.provider_name in
      let timed =
        record_provider_latency_sample (count_attempt m attempt) name attempt.latency_ms in
      fallback-IsConsistent (record_attempt_outcome timed attempt) attempt (
        outcome-IsConsistent timed attempt (
          latency-IsCounted (count_attempt m attempt) name attempt.latency_ms
            (counted m attempt v)))

  pub attempts-IsConsistent :
      (m : MetricsRegistry F) (attempts : List ProviderAttempt)
      → IsConsistent m
      → IsConsistent (record_provider_attempts m attempts)
  unfolding record_provider_attempts
  attempts-IsConsistent m [] v = v
  attempts-IsConsistent m (a ∷ as') v =
      attempts-IsConsistent (record_attempt m a) as' (attempt-IsConsistent m a v)
