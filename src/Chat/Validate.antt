-- ===== src/Chat/Validate.antt =====
-- `ChatCompletionRequest::validate` of src/models/chat.rs: the checks in their order, each with the
-- message of its error.
use Prim.Native.String.{◌++◌ as text_append, len}
use rustygate.Prelude.{
  String, Bool, true, not, ◌||◌, Option, none, some, List, [], ◌∷◌, map, ltb, length, any, is_empty,
  contains, str_eq, unwrap_or, Result, ok, ◌>>◌, reject_if,
}
use rustygate.Text.{is_blank, count_chars, show_nat}
use rustygate.Errors.{AppError, invalid_request}
use rustygate.Chat.{
  ChatCompletionRequest, ChatValidationLimits, Tool, ToolChoice, mode, function_choice,
}

-- `self.tools.as_deref().unwrap_or_default()`, by the tools' names.
abbrev pub tool_names : {V : Type 0} → Option (List (Tool V)) → List String
tool_names none = []
tool_names (some tools) = map (λ t. t.function.name) tools

-- `serde_json::to_string(..).map(|value| value.len() > 8_192).unwrap_or(true)`
abbrev pub too_large : Option String → Bool
too_large none = true
too_large (some value) = ltb 8_192 (len value)

-- `V` stands for `serde_json::Value`, and `encode` for `serde_json::to_string` on it.
module _ {V : Type 0} (encode : V → Option String) {U : Type 0} (request_id : Option U) where
  abbrev Checked : Type 0
  Checked = Result (Unit {0}) (AppError U)

  abbrev check : Bool → String → Checked
  check bad message = reject_if bad (invalid_request message request_id)

  unfoldable pub check_tool : Tool V → Checked
  check_tool tool = do
    check (not (str_eq tool.kind "function") || is_blank tool.function.name)
        "each tool must be a named function tool"
    check (too_large (encode tool.function.parameters))
        "tool parameter schemas must be at most 8192 bytes"

  -- The `for tool in tools` loop.
  unfoldable pub check_each_tool : List (Tool V) → Checked
  unfolding check_tool
  check_each_tool [] = ok tt
  check_each_tool (tool ∷ tools) = do check_tool tool; check_each_tool tools

  unfoldable pub check_tools : Option (List (Tool V)) → Checked
  unfolding check_each_tool
  check_tools none = ok tt
  check_tools (some tools) = do
    check (ltb 128 (length tools)) "tools must contain at most 128 entries"
    check_each_tool tools

  unfoldable pub check_tool_choice : Option ToolChoice → Option (List (Tool V)) → Checked
  check_tool_choice none tools = ok tt
  check_tool_choice (some (mode m)) tools = ok tt
  check_tool_choice (some (function_choice kind function)) tools = do
    check (not (str_eq kind "function")) "tool_choice function selectors must use type `function`"
    check (not (contains (tool_names tools) function.name))
        (text_append "tool_choice references undefined tool `" (text_append function.name "`"))

  unfoldable pub validate :
      {F : Type 0} → ChatCompletionRequest V F → ChatValidationLimits → Checked
  validate r limits = do
    check (is_blank (unwrap_or r.model "")) "model must be provided"
    check (is_empty r.messages) "messages must contain at least one item"
    check (ltb limits.max_messages_per_request (length r.messages)) (
        text_append "messages must contain at most "
          (text_append (show_nat limits.max_messages_per_request) " items"))
    check (any (λ m. is_blank m.content) r.messages) "message content must not be empty"
    check (any (λ m. ltb limits.max_message_content_chars (count_chars m.content)) r.messages) (
        text_append "message content must be at most "
          (text_append (show_nat limits.max_message_content_chars) " characters"))
    check_tools r.tools
    check_tool_choice r.tool_choice r.tools
