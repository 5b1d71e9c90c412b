-- ===== src/Tokens.antt =====
-- src/telemetry/token_estimator.rs: the word count that stands for a token count.
use rustygate.Prelude.{ℕ, ◌%◌, ◌+◌, String, List, [], ◌∷◌, u32_max, wrapping_add_u32}
use rustygate.Text.{count_words}
use rustygate.Chat.{ChatMessage}

unfoldable pub estimate_tokens_for_text : String → ℕ
unfolding count_words
estimate_tokens_for_text text = count_words text % (u32_max + 1)

-- The sum of the estimates, as a `u32`.
unfoldable pub estimate_tokens_for_messages : List ChatMessage → ℕ
unfolding estimate_tokens_for_text
estimate_tokens_for_messages [] = 0
estimate_tokens_for_messages (m ∷ ms) =
    wrapping_add_u32 (estimate_tokens_for_text m.content) (estimate_tokens_for_messages ms)
