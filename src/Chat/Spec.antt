-- ===== src/Chat/Spec.antt =====
-- What a valid chat request is, said without the order of the checks, and that `validate` accepts
-- exactly those.
use Prim.Native.String.{len}
use rustygate.Prelude.{
  ◌≤◌, ◌≡◌, ◌≢◌, refl, ◌↔◌, String, true, false, Option, none, some, List, [], ◌∷◌, arith, ltb,
  length, All, is_empty, contains, str_eq_iff, unwrap_or, ok, any-eq-false, any_of_All, All-map,
}
use rustygate.Text.{is_blank, count_chars}
use rustygate.Chat.{
  ChatCompletionRequest, ChatValidationLimits, Tool, ToolChoice, mode, function_choice,
}
use rustygate.Chat.Validate.{
  validate, check_tool, check_each_tool, check_tools, check_tool_choice, tool_names, too_large,
}

module _ {V : Type 0} (encode : V → Option String) where
  abbrev pub IsValidTool : Tool V → Type 0
  IsValidTool t =
      (t.kind ≡ "function")
      × (is_blank t.function.name ≡ false)
      × ((s : String) × (encode t.function.parameters ≡ some s) × (len s ≤ 8_192))

  abbrev pub AreValidTools : Option (List (Tool V)) → Type 0
  AreValidTools none = Unit
  AreValidTools (some tools) = (length tools ≤ 128) × All IsValidTool tools

  abbrev pub IsValidChoice : Option ToolChoice → Option (List (Tool V)) → Type 0
  IsValidChoice (some (function_choice kind function)) tools =
      (kind ≡ "function") × (contains (tool_names tools) function.name ≡ true)
  IsValidChoice _ tools = Unit

  -- A model is named; there is a message, not too many of them, none blank and none too long; the
  -- tools are named function tools with small schemas, at most 128; a chosen tool is one of them.
  pub record IsValidRequest {F : Type 0} (r : ChatCompletionRequest V F)
      (limits : ChatValidationLimits) : Type 0 where
    pub has_model : is_blank (unwrap_or r.model "") ≡ false
    pub has_message : r.messages ≢ []
    pub few_messages : length r.messages ≤ limits.max_messages_per_request
    pub no_blank : All (λ m. is_blank m.content ≡ false) r.messages
    pub none_long : All (λ m. count_chars m.content ≤ limits.max_message_content_chars) r.messages
    pub valid_tools : AreValidTools r.tools
    pub valid_choice : IsValidChoice r.tool_choice r.tools

small_enough :
    (o : Option String) → too_large o ≡ false → (s : String) × (o ≡ some s) × (len s ≤ 8_192)
small_enough none h = cc
small_enough (some s) h = (s, refl, ground arith)

module _ {V : Type 0} (encode : V → Option String) {U : Type 0} (i : Option U) where
  check_tool_iff : (t : Tool V) → (check_tool encode i t ≡ ok tt) ↔ IsValidTool encode t
  unfolding check_tool
  check_tool_iff t = (
    (λ h. (
      ground (arith, str_eq_iff t.kind "function"),
      ground arith,
      small_enough (encode t.function.parameters) (ground arith),
    )),
    (λ v. ground (arith, str_eq_iff t.kind "function")),
  )

  check_each_tool_iff :
      (ts : List (Tool V)) → (check_each_tool encode i ts ≡ ok tt) ↔ All (IsValidTool encode) ts
  unfolding check_each_tool
  check_each_tool_iff [] = ((λ h. tt), (λ h. refl))
  check_each_tool_iff (t ∷ ts) = ground (arith, check_tool_iff t, check_each_tool_iff ts)

  check_tools_iff :
      (ts : Option (List (Tool V))) → (check_tools encode i ts ≡ ok tt) ↔ AreValidTools encode ts
  unfolding check_tools
  check_tools_iff none = ((λ h. tt), (λ h. refl))
  check_tools_iff (some ts) = ground (arith, check_each_tool_iff ts)

  check_tool_choice_iff :
      (c : Option ToolChoice) (ts : Option (List (Tool V)))
      → (check_tool_choice encode i c ts ≡ ok tt) ↔ IsValidChoice encode c ts
  unfolding check_tool_choice
  check_tool_choice_iff none ts = ((λ h. tt), (λ h. refl))
  check_tool_choice_iff (some (mode m)) ts = ((λ h. tt), (λ h. refl))
  check_tool_choice_iff (some (function_choice kind f)) ts =
      ground (arith, str_eq_iff kind "function")

  is_empty_iff {ℓ} : {A : Type ℓ} (xs : List A) → (is_empty xs ≡ false) ↔ (xs ≢ [])
  unfolding is_empty
  is_empty_iff [] = ((λ h. cc), (λ h. absurd (h refl)))
  is_empty_iff (x ∷ xs) = ((λ h e. cc), (λ h. refl))

  -- Validation accepts exactly the valid requests, whatever the request's id and whatever the
  -- encoder of JSON values does.
  pub validate_iff :
      {F : Type 0} (r : ChatCompletionRequest V F) (limits : ChatValidationLimits)
      → (validate encode i r limits ≡ ok tt) ↔ IsValidRequest encode r limits
  unfolding validate
  validate_iff r limits = (
    (λ h. record {
      has_model = ground arith;
      has_message = (is_empty_iff r.messages).0 (ground arith);
      few_messages = ground arith;
      no_blank = any-eq-false (λ m. is_blank m.content) r.messages (ground arith);
      none_long =
          All-map _ _ (λ m e. ground arith) r.messages
            (any-eq-false (λ m. ltb limits.max_message_content_chars (count_chars m.content))
              r.messages (ground arith));
      valid_tools = (check_tools_iff r.tools).0 (ground arith);
      valid_choice = (check_tool_choice_iff r.tool_choice r.tools).0 (ground arith);
    }),
    (λ v. ground (
      arith,
      (is_empty_iff r.messages).1 v.has_message,
      any_of_All (λ m. is_blank m.content) r.messages v.no_blank,
      any_of_All (λ m. ltb limits.max_message_content_chars (count_chars m.content)) r.messages
          (All-map _ _ (λ m e. ground arith) r.messages v.none_long),
      (check_tools_iff r.tools).1 v.valid_tools,
      (check_tool_choice_iff r.tool_choice r.tools).1 v.valid_choice,
    )),
  )
