-- ===== src/Fallback/Tests.antt =====
-- src/routing/fallback.rs: runs of `complete_chat`, and its theorems at concrete inputs.
use rustygate.Prelude.{
  refl, ℕ, ◌+◌, ◌≤◌, max, none, some, [], ◌∷◌, str_eq, if◌then◌else◌, Result, ok, err, arith,
}
use rustygate.Errors.{ProviderError, timeout}
use rustygate.Config.{priority, default_prefix_affinity_config}
use rustygate.Chat.{ChatCompletionRequest, ChatCompletionResponse}
use rustygate.Float.Model.{nat_float}
use rustygate.Provider.{ProviderEntry}
use rustygate.Lru.Model.{list_lru}
use rustygate.Affinity.{PrefixAffinityEntry}
use rustygate.Resilience.{ResilienceRegistry, default_retry_policy}
use rustygate.Resilience.Breaker.{default_breaker_policy}
use rustygate.Resilience
use rustygate.Admission
use rustygate.Admission.{AdmissionSlot, global, pool, provider}
use rustygate.Admission.Acquire.{HasWords}
use rustygate.Fallback.Slots.{IsRestored, complete_chat-IsRestored}
use rustygate.Prelude.Dict
use rustygate.Metrics.Tests.{empty_metrics}
use rustygate.Strategy.Tests.{providers, pools, index, fingerprint, digest}
use rustygate.Fallback.Attempt.{retry_backoff}
use rustygate.Fallback.Backoff.{retry_backoff-bounds}
use rustygate.Fallback.World.{World}
use rustygate.Fallback.Chat.{complete_chat}
use rustygate.Fallback.Report.{Reports, complete_chat-Reports}

abbrev registry : ResilienceRegistry
registry =
    Resilience.new
      (record {
        timeout_ms = none;
        retry = record default_retry_policy { max_retries = 1 };
        breaker = default_breaker_policy;
      })
      [] ("east" ∷ "west" ∷ [])

abbrev W : Type 0
W = World nat_float (list_lru PrefixAffinityEntry) ℕ

abbrev world : W
world = record {
  resilience = registry;
  admission = Admission.disabled;
  affinity = index;
  metrics = empty_metrics;
  now = 1_000;
  outside = 0;
}

abbrev request : ChatCompletionRequest ℕ ℕ
request = record {
  model = some "m";
  messages = [];
  temperature = none;
  max_tokens = some 50;
  stream = none;
  tools = none;
  tool_choice = none;
  parallel_tool_calls = none;
  response_format = none;
}

abbrev response : ChatCompletionResponse
response = record {
  id = "r";
  object = "chat.completion";
  created = 0;
  model = "m";
  provider = "east";
  choices = [];
  usage = record { prompt_tokens = 1_000; completion_tokens = 2_000; total_tokens = 3_000 };
}

-- The first provider times out, the other one answers; each call takes two milliseconds.
abbrev answer :
    ProviderEntry nat_float
    → ChatCompletionRequest ℕ ℕ
    → W
    → W × Result ChatCompletionResponse ProviderError
answer entry _ w = (
  record w { now = w.now + 2_000_000 },
  (if str_eq entry.provider.name "west" then err timeout else ok response),
)

abbrev wait : ℕ → W → W
wait ms w = record w { now = w.now + ms }

complete_chat-Reports_example :
    Reports nat_float
      (complete_chat nat_float
        (list_lru PrefixAffinityEntry)
        ℕ
        answer
        wait
        fingerprint
        request
        digest
        providers
        pools
        priority
        default_prefix_affinity_config
        none
        world).1
complete_chat-Reports_example =
    complete_chat-Reports nat_float (list_lru PrefixAffinityEntry) ℕ answer wait fingerprint request
      digest providers pools priority default_prefix_affinity_config none world

-- One slot for each provider.
abbrev limited_world : W
limited_world = record world {
  admission = Admission.new (record {
    max_global = none;
    max_prompt_tokens = none;
    max_total_tokens = none;
    retry_after = 1;
    pool_max_in_flight = [];
    provider_max_in_flight = ("east", 1) ∷ ("west", 1) ∷ [];
  });
}

limited-HasWords : HasWords limited_world.admission
unfolding Admission.new Dict.get str_eq
limited-HasWords global l e = cc
limited-HasWords (pool p) l e = cc
limited-HasWords (provider p) l e = ground arith

complete_chat-IsRestored_example :
    IsRestored limited_world.admission
      (complete_chat nat_float
        (list_lru PrefixAffinityEntry)
        ℕ
        answer
        wait
        fingerprint
        request
        digest
        providers
        pools
        priority
        default_prefix_affinity_config
        none
        limited_world).0.admission
complete_chat-IsRestored_example =
    complete_chat-IsRestored nat_float (list_lru PrefixAffinityEntry) ℕ answer wait fingerprint
      request (λ e r w. refl) (λ ms w. refl) digest providers pools priority
      default_prefix_affinity_config none limited_world limited-HasWords

retry_backoff-bounds_example :
    (100 ≤ retry_backoff default_retry_policy 3 "mock-primary")
    × (retry_backoff default_retry_policy 3 "mock-primary" ≤ max 2_000 100 + 50)
retry_backoff-bounds_example =
    retry_backoff-bounds default_retry_policy 3 "mock-primary" (omega arith) (omega arith)
