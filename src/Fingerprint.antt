-- ===== src/Fingerprint.antt =====
-- src/routing/prefix_fingerprint.rs: the fingerprint of the part of a prompt that requests share. `V`
-- stands for `serde_json::Value`; the serializer and the digest of its output are parameters.
pub mod Prefix
mod Tests
use Prim.Native.Char.{Char, code}
use Prim.Native.String.{◌++◌ as text_append}
use rustygate.Prelude.{
  ℕ, String, Bool, true, false, not, ◌||◌, Option, none, some, List, [], ◌∷◌, map, any, is_empty,
  is_some, is_some_and, filter_map, if◌then◌else◌, unwrap_or,
}
use rustygate.Text.{is_whitespace, is_empty_text, count_chars}
use rustygate.Tokens.{estimate_tokens_for_text}
use rustygate.Sse.{prepend_first, join_lines}
use rustygate.Chat.{
  ChatRole, developer, system, user, assistant, tool, ChatMessage, ToolCall, Tool, ToolChoice,
  ChatCompletionRequest,
}
use rustygate.Strategy.Selection.{PrefixFingerprintResult, high, low}

unfoldable starts_word : String → Bool
unfolding is_whitespace
starts_word String.[] = false
starts_word (String.◌∷◌ c s) = not (is_whitespace (code c))

-- `str::split_whitespace`
unfoldable pub split_whitespace : String → List String
unfolding is_whitespace starts_word
split_whitespace String.[] = []
split_whitespace (String.◌∷◌ c s) =
    let rest = split_whitespace s in
    if is_whitespace (code c)
    then rest
    else if starts_word s
    then prepend_first c rest
    else String.◌∷◌ c String.[] ∷ rest

-- `join(" ")`
unfoldable pub join_words : List String → String
join_words [] = ""
join_words (w ∷ []) = w
join_words (w ∷ w' ∷ ws) = text_append w (text_append " " (join_words (w' ∷ ws)))

unfoldable pub normalize_text : String → String
unfolding split_whitespace join_words
normalize_text text = join_words (split_whitespace text)

pub record CanonicalPrefixMessage : Type 0 where
  pub role : ChatRole
  pub content : String
  pub tool_calls : Option (List ToolCall)
  pub tool_call_id : Option String

unfoldable pub normalize_message : ChatMessage → Option CanonicalPrefixMessage
unfolding normalize_text is_empty_text
normalize_message message =
    let content = normalize_text message.content in
    if is_empty_text content
    then none
    else some (record {
      role = message.role;
      content = content;
      tool_calls = message.tool_calls;
      tool_call_id = message.tool_call_id;
    })

abbrev pub is_user : ChatMessage → Bool
is_user message = elim message.role [ user ↦ true | _ ↦ false ]

abbrev pub keep_before : ChatMessage → Option (List ChatMessage) → Option (List ChatMessage)
keep_before message (some before) = some (message ∷ before)
keep_before message none = if is_user message then some [] else none

-- The messages before the last one of the user, where there is one.
unfoldable pub before_last_user : List ChatMessage → Option (List ChatMessage)
before_last_user [] = none
before_last_user (message ∷ messages) = keep_before message (before_last_user messages)

unfoldable pub stable_prefix_messages : List ChatMessage → List ChatMessage
unfolding before_last_user
stable_prefix_messages messages = unwrap_or (before_last_user messages) messages

abbrev pub is_high_value : CanonicalPrefixMessage → Bool
is_high_value message = elim message.role [
  | system ↦ true
  | developer ↦ true
  | tool ↦ true
  | _ ↦ false
]

pub record CanonicalPrefix (V : Type 0) : Type 0 where
  pub version : ℕ  -- u8
  pub model : String
  pub messages : List CanonicalPrefixMessage
  pub tools : Option (List (Tool V))
  pub tool_choice : Option ToolChoice
  pub parallel_tool_calls : Option Bool
  pub response_format : Option V

abbrev map_encoded : (String → String) → Option String → Option String
map_encoded hex_digest none = none
map_encoded hex_digest (some encoded) = some (hex_digest encoded)

module _ {V F : Type 0} (to_vec : CanonicalPrefix V → Option String)
    (hex_digest : String → String) where
  -- What is left of `fingerprint_request` once the messages are normalized.
  unfoldable pub fingerprint_prefix :
      ChatCompletionRequest V F → List CanonicalPrefixMessage → PrefixFingerprintResult
  unfolding join_lines count_chars estimate_tokens_for_text any is_empty
  fingerprint_prefix request normalized_messages =
      let text = join_lines (map (λ m. m.content) normalized_messages) in
      let has_high_value_prefix =
        any is_high_value normalized_messages
        || is_some_and request.tools (λ tools. not (is_empty tools))
        || is_some request.tool_choice
        || is_some request.response_format in
      if has_high_value_prefix
      then record {
        fingerprint = map_encoded hex_digest (
            to_vec (record {
              version = 1;
              model = unwrap_or request.model "";
              messages = normalized_messages;
              tools = request.tools;
              tool_choice = request.tool_choice;
              parallel_tool_calls = request.parallel_tool_calls;
              response_format = request.response_format;
            }));
        confidence = high;
        prefix_char_length = count_chars text;
        prefix_token_estimate = estimate_tokens_for_text text;
      }
      else record {
        fingerprint = none;
        confidence = low;
        prefix_char_length = count_chars text;
        prefix_token_estimate = estimate_tokens_for_text text;
      }

  unfoldable pub fingerprint_request : ChatCompletionRequest V F → PrefixFingerprintResult
  unfolding fingerprint_prefix stable_prefix_messages normalize_message
  fingerprint_request request =
      fingerprint_prefix request
        (filter_map normalize_message (stable_prefix_messages request.messages))
