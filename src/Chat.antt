-- ===== src/Chat.antt =====
-- src/models/chat.rs: the chat request and response. `V` stands for `serde_json::Value` and `F` for
-- the floating point type of a field.
pub mod Validate
pub mod Spec
mod Tests
use rustygate.Prelude.{ℕ, String, Bool, false, Option, List, unwrap_or}

pub data ChatRole : Type 0 where
  developer system user assistant tool : ChatRole

pub record ToolCallFunction : Type 0 where
  pub name : String
  pub arguments : String

pub record ToolCall : Type 0 where
  pub id : String
  pub kind : String
  pub function : ToolCallFunction

pub record ChatMessage : Type 0 where
  pub role : ChatRole
  pub content : String
  pub tool_calls : Option (List ToolCall)
  pub tool_call_id : Option String

pub record ToolFunction (V : Type 0) : Type 0 where
  pub name : String
  pub description : Option String
  pub parameters : V
  pub strict : Option Bool

pub record Tool (V : Type 0) : Type 0 where
  pub kind : String
  pub function : ToolFunction V

pub data ToolChoiceMode : Type 0 where
  auto_choice no_choice required_choice : ToolChoiceMode

pub record ToolChoiceFunction : Type 0 where
  pub name : String

pub data ToolChoice : Type 0 where
  mode : ToolChoiceMode → ToolChoice
  function_choice : String → ToolChoiceFunction → ToolChoice

pub record ChatCompletionRequest (V F : Type 0) : Type 0 where
  pub model : Option String
  pub messages : List ChatMessage
  pub temperature : Option F
  pub max_tokens : Option ℕ  -- u32
  pub stream : Option Bool
  pub tools : Option (List (Tool V))
  pub tool_choice : Option ToolChoice
  pub parallel_tool_calls : Option Bool
  pub response_format : Option V

pub record TokenUsage : Type 0 where
  pub prompt_tokens : ℕ  -- u32
  pub completion_tokens : ℕ  -- u32
  pub total_tokens : ℕ  -- u32

pub record ChatChoice : Type 0 where
  pub index : ℕ
  pub message : ChatMessage
  pub finish_reason : String

pub record ChatCompletionResponse : Type 0 where
  pub id : String
  pub object : String
  pub created : ℕ
  pub model : String
  pub provider : String
  pub choices : List ChatChoice
  pub usage : TokenUsage

unfoldable pub stream_enabled : {V F : Type 0} → ChatCompletionRequest V F → Bool
stream_enabled r = unwrap_or r.stream false

pub record ChatValidationLimits : Type 0 where
  pub max_messages_per_request : ℕ  -- usize
  pub max_message_content_chars : ℕ  -- usize

abbrev pub default_limits : ChatValidationLimits
default_limits = record { max_messages_per_request = 64; max_message_content_chars = 8_000 }
