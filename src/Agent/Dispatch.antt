-- ===== src/Agent/Dispatch.antt =====
-- pkg/agent/loop.go: sanitizeDispatchMessages and ensureNonSystemDispatchMessage, the last steps
-- before a model is called.
use suprclaw_engine.Prelude.{
  ◌≡◌, refl, sym, ◌∙◌, ap, subst, Bool, true, false, ◌&&◌, not, List, [], ◌∷◌, ◌++◌, if◌then◌else◌,
  ◌==◌, nat_eq, list_eq, is_nil, any, keep, arith, Bool-cases, inl, inr,
}
use mathlib.Core.Bool.{true≢false}
use suprclaw_engine.Prelude.Slices.{keep-append}
use suprclaw_engine.Prelude.Text.{Text, codes}
use suprclaw_engine.Prelude.Unicode.{Unicode, trim_space}
use suprclaw_engine.Providers.Message.{Message}
use suprclaw_engine.Agent.History.{system_kind, call_kind, plain_kind, kind, accepts_call}
use suprclaw_engine.Agent.History.Coherence.{is_single, all_tools, IsCoherent, nil, single, turn}
use suprclaw_engine.Agent.Messages.{saying, IsPrompt, prompt, IsCoherent-add, user_turn}

module _ ⦃u : Unicode⦄ where
  -- An assistant message that says nothing.
  abbrev pub is_empty_assistant : Message → Bool
  is_empty_assistant msg =
      msg.role == codes "assistant"
      && is_nil msg.tool_calls
      && is_nil msg.media
      && is_nil (trim_space msg.content)
      && is_nil (trim_space msg.reasoning_content)

  unfoldable pub sanitize_dispatch_messages : List Message → List Message
  sanitize_dispatch_messages messages = keep (λ msg. not (is_empty_assistant msg)) messages

  abbrev pub fallback_text : Text → Text
  fallback_text fallback =
      if is_nil (trim_space fallback)
      then codes "Continue with the previous request."
      else trim_space fallback

  abbrev pub is_system : Message → Bool
  is_system msg = msg.role == codes "system"

  -- The messages, and whether one was added.
  unfoldable pub ensure_non_system_dispatch_message : List Message → Text → List Message × Bool
  ensure_non_system_dispatch_message messages fallback =
      if any (λ msg. not (is_system msg)) messages
      then (messages, false)
      else (messages ++ (saying (codes "user") (fallback_text fallback) [] ∷ []), true)

  -- The two steps as the loop makes them.
  unfoldable pub dispatch_messages : List Message → Text → List Message
  dispatch_messages messages user_message =
      (ensure_non_system_dispatch_message (sanitize_dispatch_messages messages) user_message).0

  empty-kind : (m : Message) → is_empty_assistant m ≡ true → kind m ≡ plain_kind
  unfolding kind
  empty-kind m h = ground arith

  tools-keep :
      (l : List Message) → all_tools l ≡ true → keep (λ msg. not (is_empty_assistant msg)) l ≡ l
  unfolding keep
  tools-keep [] h = refl
  tools-keep (m ∷ l) h = ground (arith, empty-kind m, tools-keep l)

  -- What may stand behind an assistant message may stand anywhere.
  IsCoherent-anywhere : (b : Bool) (h : List Message) → IsCoherent false h → IsCoherent b h
  IsCoherent-anywhere b _ (nil _) = nil b
  IsCoherent-anywhere b _ (single _ m ms s c) = single b m ms s c
  IsCoherent-anywhere b h (turn _ m results ms _ may k a c e) = absurd (true≢false (sym may))

  single-dispatch :
      (b : Bool) (m : Message) (ms : List Message)
      → is_single (kind m) ≡ true
      → IsCoherent (accepts_call (kind m)) (sanitize_dispatch_messages ms)
      → IsCoherent b (sanitize_dispatch_messages (m ∷ ms))
  unfolding sanitize_dispatch_messages keep
  single-dispatch b m ms s c = elim (Bool-cases (is_empty_assistant m)) [
    | inl e ↦ rw e (
        IsCoherent-anywhere b _ (
          subst (λ k. IsCoherent (accepts_call k) (sanitize_dispatch_messages ms)) (empty-kind m e)
            c))
    | inr e ↦ rw e (single b m _ s c)
  ]

  turn-keep :
      (m : Message) (results ms : List Message)
      → kind m ≡ call_kind
      → all_tools results ≡ true
      → sanitize_dispatch_messages (m ∷ (results ++ ms))
        ≡ m ∷ (results ++ sanitize_dispatch_messages ms)
  unfolding sanitize_dispatch_messages keep
  turn-keep m results ms k h =
      let parts = keep-append (λ msg. not (is_empty_assistant msg)) results ms in
      ground (arith, empty-kind m, k, parts, tools-keep results h)

  dispatch-IsCoherent :
      (b : Bool) (h : List Message) → IsCoherent b h → IsCoherent b (sanitize_dispatch_messages h)
  unfolding sanitize_dispatch_messages keep
  dispatch-IsCoherent b _ (nil _) = nil b
  dispatch-IsCoherent b _ (single _ m ms s c) =
      single-dispatch b m ms s (dispatch-IsCoherent (accepts_call (kind m)) ms c)
  dispatch-IsCoherent b h (turn _ m results ms _ may k a c e) =
      turn b m results (sanitize_dispatch_messages ms) (sanitize_dispatch_messages h) may k a
        (dispatch-IsCoherent true ms c)
        (ap sanitize_dispatch_messages e ∙ turn-keep m results ms k a.tools)

  system-keep :
      (system : Message) (h : List Message)
      → kind system ≡ system_kind
      → sanitize_dispatch_messages (system ∷ h) ≡ system ∷ sanitize_dispatch_messages h
  unfolding sanitize_dispatch_messages keep
  system-keep system h k = ground (arith, empty-kind system, k)

  -- Some message is not a system message.
  abbrev pub has_conversation : List Message → Bool
  has_conversation = any (λ msg. not (is_system msg))

  has_conversation-add :
      (l : List Message) (content : Text)
      → has_conversation (l ++ (saying (codes "user") content [] ∷ [])) ≡ true
  has_conversation-add [] content = ground arith
  has_conversation-add (m ∷ l) content = ground (arith, has_conversation-add l content)

  ensure-IsPrompt :
      (l : List Message) (fallback : Text)
      → IsPrompt l
      → IsPrompt (ensure_non_system_dispatch_message l fallback).0
        × (has_conversation (ensure_non_system_dispatch_message l fallback).0 ≡ true)
  unfolding ensure_non_system_dispatch_message
  ensure-IsPrompt l fallback p = elim (Bool-cases (has_conversation l)) [
    | inl e ↦ rw (ensure_non_system_dispatch_message, e) (p, e)
    | inr e ↦
        rw (ensure_non_system_dispatch_message, e)
          (added p, has_conversation-add l (fallback_text fallback))
  ]
    where
      added : IsPrompt l → IsPrompt (l ++ (saying (codes "user") (fallback_text fallback) [] ∷ []))
      added (prompt system h _ k c e) =
          let user = saying (codes "user") (fallback_text fallback) [] in
          prompt system (h ++ (user ∷ [])) _ k
            (IsCoherent-add false h user (user_turn (fallback_text fallback) []) c)
            (ap (λ (l : List Message). l ++ (user ∷ [])) e)

  -- The last steps before a model is called turn one system message and a coherent history into one
  -- system message and a coherent history, and what they return has a message that is not a system
  -- message.
  pub dispatch_messages-IsPrompt :
      (l : List Message) (user_message : Text)
      → IsPrompt l
      → IsPrompt (dispatch_messages l user_message)
        × (has_conversation (dispatch_messages l user_message) ≡ true)
  unfolding dispatch_messages
  dispatch_messages-IsPrompt l user_message (prompt system h _ k c e) =
      ensure-IsPrompt (sanitize_dispatch_messages l) user_message (
        prompt system (sanitize_dispatch_messages h) _ k (dispatch-IsCoherent false h c)
          (ap sanitize_dispatch_messages e ∙ system-keep system h k))
