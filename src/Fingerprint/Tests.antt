-- ===== src/Fingerprint/Tests.antt =====
-- src/routing/prefix_fingerprint.rs: two requests with the same instructions.
use rustygate.Prelude.{ℕ, String, ◌≡◌, refl, false, Option, none, some, [], ◌∷◌, ◌++◌, any}
use rustygate.Chat.{ChatMessage, ChatRole, system, user, assistant, ChatCompletionRequest}
use rustygate.Fingerprint.{CanonicalPrefix, normalize_text, fingerprint_request, is_user}
use rustygate.Fingerprint.Prefix.{fingerprint_request-append}

abbrev message : ChatRole → String → ChatMessage
message role content = record {
  role = role;
  content = content;
  tool_calls = none;
  tool_call_id = none;
}

abbrev request : ChatCompletionRequest ℕ ℕ
request = record {
  model = some "m";
  messages = [];
  temperature = none;
  max_tokens = none;
  stream = none;
  tools = none;
  tool_choice = none;
  parallel_tool_calls = none;
  response_format = none;
}

abbrev to_vec : CanonicalPrefix ℕ → Option String
to_vec prefix = some prefix.model

abbrev hex_digest : String → String
hex_digest encoded = encoded

collapses : normalize_text "  be   brief " ≡ "be brief"
unfolding normalize_text
collapses = refl

nobody : any is_user [] ≡ false
unfolding any
nobody = refl

answered : any is_user (message assistant "yes" ∷ []) ≡ false
unfolding any
answered = refl

fingerprint_request-append_example :
    fingerprint_request to_vec hex_digest
      (record request { messages = (message system "be brief" ∷ []) ++ (message user "a" ∷ []) })
    ≡ fingerprint_request to_vec hex_digest (record request {
      messages =
          (message system "be brief" ∷ []) ++ (message user "b" ∷ message assistant "yes" ∷ []);
    })
fingerprint_request-append_example =
    fingerprint_request-append to_vec hex_digest request (message system "be brief" ∷ []) []
      (message assistant "yes" ∷ []) (message user "a") (message user "b") refl refl nobody answered
