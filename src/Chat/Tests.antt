-- ===== src/Chat/Tests.antt =====
-- Requests that pass validation and requests that do not, and its theorem at a concrete input.
use rustygate.Prelude.{
  ℕ, String, ◌≡◌, refl, ◌↔◌, none, some, [], ◌∷◌, ok, err, any, is_empty, contains, str_eq,
}
use rustygate.Text.{is_blank, count_chars}
use rustygate.Errors.{invalid_request}
use rustygate.Chat.{ChatCompletionRequest, Tool, user, function_choice, default_limits}
use rustygate.Chat.Validate.{validate, check_tools, check_tool_choice}
use rustygate.Chat.Spec.{IsValidRequest, validate_iff}

abbrev lookup_tool : Tool String
lookup_tool = record {
  kind = "function";
  function = record { name = "lookup"; description = none; parameters = "{}"; strict = none };
}

abbrev request_choosing : String → ChatCompletionRequest String ℕ
request_choosing name = record {
  model = some "mock-fast-v1";
  messages =
      record { role = user; content = " hello "; tool_calls = none; tool_call_id = none } ∷ [];
  temperature = none;
  max_tokens = some 16;
  stream = none;
  tools = some (lookup_tool ∷ []);
  tool_choice = some (function_choice "function" (record { name = name }));
  parallel_tool_calls = none;
  response_format = none;
}

chosen_tool_exists : validate some {U = ℕ} none (request_choosing "lookup") default_limits ≡ ok tt
unfolding validate check_tools check_tool_choice is_blank count_chars any is_empty contains str_eq
chosen_tool_exists = refl

chosen_tool_is_missing :
    validate some {U = ℕ} (some 3) (request_choosing "search_web") default_limits
    ≡ err (invalid_request "tool_choice references undefined tool `search_web`" (some 3))
unfolding validate check_tools check_tool_choice is_blank count_chars any is_empty contains str_eq
chosen_tool_is_missing = refl

validate_iff_example :
    (validate some {U = ℕ} none (request_choosing "lookup") default_limits ≡ ok tt)
    ↔ IsValidRequest some (request_choosing "lookup") default_limits
validate_iff_example = validate_iff some {U = ℕ} none (request_choosing "lookup") default_limits
