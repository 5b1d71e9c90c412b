-- ===== src/Fingerprint/Prefix.antt =====
-- src/routing/prefix_fingerprint.rs: the fingerprint does not depend on the last question.
use rustygate.Prelude.{
  String, ◌≡◌, refl, sym, ap, ◌∙◌, true, false, Option, none, some, List, [], ◌∷◌, ◌++◌, any,
  unwrap_or, filter_map, arith,
}
use rustygate.Chat.{ChatMessage, ChatCompletionRequest}
use rustygate.Fingerprint.{
  CanonicalPrefix, is_user, keep_before, before_last_user, stable_prefix_messages,
  normalize_message, fingerprint_prefix, fingerprint_request,
}

no_user :
    (messages : List ChatMessage) → any is_user messages ≡ false → before_last_user messages ≡ none
unfolding before_last_user any
no_user [] h = refl
no_user (m ∷ ms) h = ground (arith, no_user ms)

before_last_user-append :
    (before after : List ChatMessage) (question : ChatMessage)
    → is_user question ≡ true
    → any is_user after ≡ false
    → before_last_user (before ++ (question ∷ after)) ≡ some before
unfolding before_last_user
before_last_user-append [] after q h k = ap (keep_before q) (no_user after k) ∙ rw h refl
before_last_user-append (m ∷ before) after q h k =
    ap (keep_before m) (before_last_user-append before after q h k)

stable_prefix_messages-append :
    (before after : List ChatMessage) (question : ChatMessage)
    → is_user question ≡ true
    → any is_user after ≡ false
    → stable_prefix_messages (before ++ (question ∷ after)) ≡ before
unfolding stable_prefix_messages
stable_prefix_messages-append before after q h k =
    ap (λ (found : Option (List ChatMessage)). unwrap_or found (before ++ (q ∷ after)))
      (before_last_user-append before after q h k)

module _ {V F : Type 0} (to_vec : CanonicalPrefix V → Option String)
    (hex_digest : String → String) where
  -- Two requests that differ in the last message of the user and in what follows it have the same
  -- fingerprint, confidence and prefix length.
  pub fingerprint_request-append :
      (request : ChatCompletionRequest V F) (before after after' : List ChatMessage)
      (question question' : ChatMessage)
      → is_user question ≡ true
      → is_user question' ≡ true
      → any is_user after ≡ false
      → any is_user after' ≡ false
      → fingerprint_request to_vec hex_digest
          (record request { messages = before ++ (question ∷ after) })
        ≡ fingerprint_request to_vec hex_digest
            (record request { messages = before ++ (question' ∷ after') })
  unfolding fingerprint_request fingerprint_prefix
  fingerprint_request-append request before after after' q q' h h' k k' =
      ap
        (λ (prefix : List ChatMessage).
          fingerprint_prefix to_vec hex_digest request (filter_map normalize_message prefix))
        (stable_prefix_messages-append before after q h k
          ∙ sym (stable_prefix_messages-append before after' q' h' k'))
