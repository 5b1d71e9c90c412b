-- ===== src/Metrics/Consistent.antt =====
-- src/telemetry/metrics.rs: the totals agree with each other, and the lists of samples stay short.
use rustygate.Prelude.Dict
use rustygate.Prelude.Dict.{Dict}
use rustygate.Prelude.{ℕ, String, refl, Option, List, [], ◌∷◌, arith}
use rustygate.Float.{Float}
use rustygate.Chat.{TokenUsage}
use rustygate.Provider.{CostEstimate}
use rustygate.Fallback.Attempt.{ProviderAttempt}
use rustygate.Metrics.{
  MetricsRegistry, no_metrics, begin_provider_request, end_provider_request, record_provider_ttft,
  record_routing_decision, record_prefix_fingerprint, record_admission_rejection,
}
use rustygate.Metrics.Requests.{
  begin_request, end_request, record_cache_lookup, record_stream_outcome, record_latency_sample,
  record_chat_failure_with_category, record_chat_success, count_failure, count_success,
}
use rustygate.Metrics.Tally.{
  IsConsistent, push_sample-IsShort, short_insert, one_more_left, one_more_right,
}
use rustygate.Metrics.Attempts.{attempts-IsConsistent}

-- A change of the registry.
pub data Event (fl : Float) : Type 0 where
  begun ended : Event fl
  provider_begun provider_ended : String → ℕ → Event fl
  ttft : String → ℕ → Event fl
  routed : String → String → Event fl
  fingerprinted rejected cache_lookup : String → Event fl
  stream_outcome : String → ℕ → Event fl
  success : TokenUsage → CostEstimate fl → ℕ → List ProviderAttempt → Event fl
  failure : ℕ → List ProviderAttempt → Option String → Event fl

module _ (fl : Float) where
  unfoldable pub apply : MetricsRegistry fl.F64 → Event fl → MetricsRegistry fl.F64
  apply m begun = begin_request m
  apply m ended = end_request m
  apply m (provider_begun name units) = begin_provider_request m name units
  apply m (provider_ended name units) = end_provider_request m name units
  apply m (ttft name ms) = record_provider_ttft m name ms
  apply m (routed policy reason) = record_routing_decision m policy reason
  apply m (fingerprinted outcome) = record_prefix_fingerprint m outcome
  apply m (rejected reason) = record_admission_rejection m reason
  apply m (cache_lookup outcome) = record_cache_lookup m outcome
  apply m (stream_outcome outcome ms) = record_stream_outcome m outcome ms
  apply m (success usage cost_estimate ms attempts) =
      record_chat_success fl m usage cost_estimate ms attempts
  apply m (failure ms attempts category) = record_chat_failure_with_category m ms attempts category

  unfoldable pub replay : MetricsRegistry fl.F64 → List (Event fl) → MetricsRegistry fl.F64
  replay m [] = m
  replay m (e ∷ es) = replay (apply m e) es

  apply-IsConsistent :
      (m : MetricsRegistry fl.F64) (e : Event fl) → IsConsistent m → IsConsistent (apply m e)
  unfolding apply begin_request end_request begin_provider_request end_provider_request
      record_provider_ttft record_routing_decision record_prefix_fingerprint
      record_admission_rejection record_cache_lookup record_stream_outcome record_chat_success
      count_success record_chat_failure_with_category count_failure record_latency_sample
  apply-IsConsistent m begun v = v
  apply-IsConsistent m ended v = v
  apply-IsConsistent m (provider_begun name units) v = v
  apply-IsConsistent m (provider_ended name units) v = v
  apply-IsConsistent m (ttft name ms) (t, (a, (b, (d, (e, f))))) = (
    t,
    (
      a,
      (
        b,
        (
          d,
          (
            short_insert m.provider_ttft_samples_ms name _ e
                (push_sample-IsShort (Dict.get_or m.provider_ttft_samples_ms name []) ms (e name)),
            f,
          ),
        ),
      ),
    ),
  )
  apply-IsConsistent m (routed policy reason) v = v
  apply-IsConsistent m (fingerprinted outcome) v = v
  apply-IsConsistent m (rejected reason) v = v
  apply-IsConsistent m (cache_lookup outcome) v = v
  apply-IsConsistent m (stream_outcome outcome ms) (t, (a, (b, r))) =
      (t, (a, (push_sample-IsShort m.stream_duration_samples_ms ms b, r)))
  apply-IsConsistent m (success usage cost_estimate ms attempts) ((t, n), (a, r)) =
      attempts-IsConsistent (record_latency_sample (count_success fl m usage cost_estimate ms) ms)
        attempts
        (
          (one_more_left m.total_requests m.successful_requests m.failed_requests t, n),
          (push_sample-IsShort m.latency_samples_ms ms a, r),
        )
  apply-IsConsistent m (failure ms attempts category) ((t, n), (a, r)) =
      attempts-IsConsistent (record_latency_sample (count_failure m ms category) ms) attempts (
        (one_more_right m.total_requests m.successful_requests m.failed_requests t, n),
        (push_sample-IsShort m.latency_samples_ms ms a, r),
      )

  replayed :
      (m : MetricsRegistry fl.F64) (es : List (Event fl))
      → IsConsistent m
      → IsConsistent (replay m es)
  unfolding replay
  replayed m [] v = v
  replayed m (e ∷ es) v = replayed (apply m e) es (apply-IsConsistent m e v)

  -- After any changes of a new registry the requests are the successful and the failed ones, the
  -- attempts at each provider its successes and its errors, up to the wrap-around of the counters, and
  -- no list of samples is longer than 1,024.
  pub replay-IsConsistent :
      (es : List (Event fl)) → IsConsistent (replay (no_metrics fl.zero_f64) es)
  unfolding Dict.get
  replay-IsConsistent es = replayed (no_metrics fl.zero_f64) es (
    (refl, (λ k. refl)),
    (omega arith, (omega arith, ((λ k. omega arith), ((λ k. omega arith), (λ k. omega arith))))),
  )
