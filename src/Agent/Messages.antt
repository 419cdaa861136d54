-- ===== src/Agent/Messages.antt =====
-- pkg/agent/context.go: BuildMessages. The static prompt, the dynamic context and the section of
-- the session's skills are given; `SystemParts` repeats the content and is left out.
use suprclaw_engine.Prelude.{
  ◌≡◌, refl, ◌∙◌, ap, Bool, true, false, List, [], ◌∷◌, ◌++◌, none, if◌then◌else◌, nat_eq, list_eq,
  is_nil, arith, Bool-cases, inl, inr,
}
use mathlib.Core.List.{append_assoc, append-nil}
use suprclaw_engine.Prelude.Text.{Text, codes}
use suprclaw_engine.Prelude.Unicode.{Unicode, trim_space}
use suprclaw_engine.Providers.Message.{Message}
use suprclaw_engine.Agent.History.{system_kind, kind, accepts_call, sanitize_history_for_provider}
use suprclaw_engine.Agent.History.Coherence.{is_single, IsCoherent, nil, single, turn}
use suprclaw_engine.Agent.History.Linked.{sanitize_history_for_provider-IsCoherent}

-- A message with a role and a content.
abbrev pub saying : Text → Text → List Text → Message
saying role content media = record {
  role = role;
  content = content;
  media = media;
  reasoning_content = [];
  usage = none;
  tool_calls = [];
  tool_call_id = [];
}

-- `strings.Join(parts, "\n\n---\n\n")`.
unfoldable pub join_parts : List Text → Text
join_parts [] = []
join_parts (part ∷ []) = part
join_parts (part ∷ next ∷ parts) =
    part ++ ((10 ∷ 10 ∷ (codes "---" ++ (10 ∷ 10 ∷ []))) ++ join_parts (next ∷ parts))

abbrev pub optional : Text → List Text
optional section = if is_nil section then [] else section ∷ []

abbrev pub summary_section : Text → Text
summary_section summary =
    if is_nil summary
    then []
    else codes
        "CONTEXT_SUMMARY: The following is an approximate summary of prior conversation for reference only. It may be incomplete or outdated — always defer to explicit instructions."
      ++ (10 ∷ 10 ∷ summary)

module _ ⦃u : Unicode⦄ where
  abbrev pub current_turn : Text → List Text → List Message
  current_turn current_message media =
      if is_nil (trim_space current_message)
      then []
      else saying (codes "user") current_message media ∷ []

module _ ⦃u : Unicode⦄ (static_prompt dynamic_ctx activated_skills_section : Text) where
  unfoldable pub full_system_prompt : Text → Text
  full_system_prompt summary = join_parts (
      static_prompt
      ∷ dynamic_ctx
      ∷ (optional activated_skills_section ++ optional (summary_section summary)))

  unfoldable pub build_messages : List Message → Text → Text → List Text → List Message
  build_messages history summary current_message media =
      saying (codes "system") (full_system_prompt summary) []
      ∷ (sanitize_history_for_provider history ++ current_turn current_message media)

-- What is sent to a provider: one system message, then a coherent history.
pub data IsPrompt ⦃u : Unicode⦄ : List Message → Type 0 where
  prompt :
      (system : Message) (h l : List Message)
      → kind system ≡ system_kind
      → IsCoherent false h
      → l ≡ system ∷ h
      → IsPrompt l

module _ ⦃u : Unicode⦄ where
  pub IsCoherent-add :
      (b : Bool) (h : List Message) (m : Message)
      → is_single (kind m) ≡ true
      → IsCoherent b h
      → IsCoherent b (h ++ (m ∷ []))
  IsCoherent-add b _ m e (nil _) = single b m [] e (nil (accepts_call (kind m)))
  IsCoherent-add b _ m e (single _ n ns s c) =
      single b n (ns ++ (m ∷ [])) s (IsCoherent-add (accepts_call (kind n)) ns m e c)
  IsCoherent-add b l m e (turn _ n results ms _ may k a c e') =
      turn b n results (ms ++ (m ∷ [])) (l ++ (m ∷ [])) may k a (IsCoherent-add true ms m e c) (
        ap (λ (l : List Message). l ++ (m ∷ [])) e'
        ∙ ap (λ (l : List Message). n ∷ l) (append_assoc results ms (m ∷ [])))

  pub system_turn : (content : Text) → kind (saying (codes "system") content []) ≡ system_kind
  unfolding kind
  system_turn content = ground arith

  pub user_turn :
      (content : Text) (media : List Text)
      → is_single (kind (saying (codes "user") content media)) ≡ true
  unfolding kind
  user_turn content media = ground arith

  current_turn-IsCoherent :
      (h : List Message) (current : Text) (media : List Text)
      → IsCoherent false h
      → IsCoherent false (h ++ current_turn current media)
  current_turn-IsCoherent h current media c = elim (Bool-cases (is_nil (trim_space current))) [
    | inl e ↦ rw (e, append-nil h) c
    | inr e ↦
        rw e
          (IsCoherent-add false h (saying (codes "user") current media) (user_turn current media) c)
  ]

  -- Whatever the stored history, the messages that are built are one system message and a coherent
  -- history.
  pub build_messages-IsPrompt :
      (static_prompt dynamic_ctx skills : Text) (history : List Message) (summary current : Text)
      (media : List Text)
      → IsPrompt (build_messages static_prompt dynamic_ctx skills history summary current media)
  unfolding build_messages
  build_messages-IsPrompt static_prompt dynamic_ctx skills history summary current media =
      let h = sanitize_history_for_provider history in
      prompt _ (h ++ current_turn current media) _ (system_turn _)
        (current_turn-IsCoherent h current media (sanitize_history_for_provider-IsCoherent history))
        refl
