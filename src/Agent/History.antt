-- ===== src/Agent/History.antt =====
-- pkg/agent/context.go: sanitizeHistoryForProvider.
pub mod Coherence
pub mod Linked
pub mod Fixed
pub mod Alike
pub mod Kept
use suprclaw_engine.Prelude.{
  ℕ, zero, suc, ◌≡◌, Bool, true, false, ◌&&◌, not, List, [], ◌∷◌, ◌++◌, if◌then◌else◌, ◌==◌,
  list_eq, nat_eq, is_nil, map, length, all, contains,
}
use suprclaw_engine.Prelude.Text.{Text, codes}
use suprclaw_engine.Prelude.Unicode.{Unicode, trim_space}
use suprclaw_engine.Providers.Message.{Message, ToolCall}

-- The cases of the switch on the role. The first pass looks for "user" only before an assistant
-- turn with tool calls.
pub data Kind : Type 0 where
  system_kind : Kind
  tool_kind : Kind
  call_kind : Kind
  user_kind : Kind
  plain_kind : Kind

unfoldable pub kind : Message → Kind
kind m =
    if m.role == codes "system"
    then system_kind
    else if m.role == codes "tool"
    then tool_kind
    else if m.role == codes "assistant"
    then (if is_nil m.tool_calls then plain_kind else call_kind)
    else if m.role == codes "user"
    then user_kind
    else plain_kind

-- Walking back over tool messages, the first other message is an assistant turn with tool calls.
-- The newest message stands first.
unfoldable pub found_assistant : List Message → Bool
found_assistant [] = false
found_assistant (m ∷ sanitized) =
    let rest = found_assistant sanitized in
    elim (kind m) [
      | system_kind ↦ false
      | tool_kind ↦ rest
      | call_kind ↦ true
      | user_kind ↦ false
      | plain_kind ↦ false
    ]

-- `prev.Role` is "user" or "tool".
abbrev pub accepts_call : Kind → Bool
accepts_call system_kind = false
accepts_call tool_kind = true
accepts_call call_kind = false
accepts_call user_kind = true
accepts_call plain_kind = false

abbrev pub last_accepts : List Message → Bool
last_accepts [] = false
last_accepts (prev ∷ sanitized) = accepts_call (kind prev)

-- Whether the first pass keeps a message, by what it kept before.
abbrev pub keeps : Kind → List Message → Bool
keeps system_kind sanitized = false
keeps tool_kind sanitized = found_assistant sanitized
keeps call_kind sanitized = last_accepts sanitized
keeps user_kind sanitized = true
keeps plain_kind sanitized = true

unfoldable pub first_pass : List Message → List Message → List Message
first_pass sanitized [] = []
first_pass sanitized (m ∷ ms) =
    let kept = keeps (kind m) sanitized in
    let rest = first_pass (if kept then m ∷ sanitized else sanitized) ms in
    if kept then m ∷ rest else rest

-- The tool messages that follow directly.
unfoldable pub tool_run : List Message → List Message
tool_run [] = []
tool_run (m ∷ ms) =
    let rest = tool_run ms in
    elim (kind m) [
      | system_kind ↦ []
      | tool_kind ↦ m ∷ rest
      | call_kind ↦ []
      | user_kind ↦ []
      | plain_kind ↦ []
    ]

abbrev pub call_ids : Message → List Text
call_ids m = map (λ (tc : ToolCall). tc.id) m.tool_calls

module _ ⦃u : Unicode⦄ where
  abbrev pub result_id : Message → Text
  result_id m = trim_space m.tool_call_id

  -- The results of expected calls, without duplicates, and the ids that are matched.
  unfoldable pub filter_results : List Text → List Text → List Message → List Text × List Message
  filter_results expected matched [] = (matched, [])
  filter_results expected matched (m ∷ ms) =
      let fresh = contains expected (result_id m) && not (contains matched (result_id m)) in
      let (found, filtered) =
        filter_results expected (if fresh then result_id m ∷ matched else matched) ms in
      (found, if fresh then m ∷ filtered else filtered)

  -- An assistant turn with its results, if none is missing.
  unfoldable pub keep_turn : Message → List Message → List Message → List Message
  keep_turn m run rest =
      let (matched, filtered) = filter_results (call_ids m) [] run in
      if all (contains matched) (call_ids m) then m ∷ (filtered ++ rest) else rest

  -- A message of the second pass: what comes before the rest.
  abbrev pub emit : Kind → Message → List Message → List Message → List Message
  emit call_kind m run rest = keep_turn m run rest
  emit tool_kind m run rest = rest
  emit system_kind m run rest = m ∷ rest
  emit user_kind m run rest = m ∷ rest
  emit plain_kind m run rest = m ∷ rest

  -- `i += toolMsgCount`.
  abbrev pub skip_after : Kind → List Message → ℕ
  skip_after call_kind run = length run
  skip_after tool_kind run = 0
  skip_after system_kind run = 0
  skip_after user_kind run = 0
  skip_after plain_kind run = 0

  unfoldable pub second_pass : ℕ → List Message → List Message
  second_pass skip [] = []
  second_pass (suc skip) (m ∷ ms) = second_pass skip ms
  second_pass zero (m ∷ ms) =
      let run = tool_run ms in
      let rest = second_pass (skip_after (kind m) run) ms in emit (kind m) m run rest

  unfoldable pub sanitize_history_for_provider : List Message → List Message
  sanitize_history_for_provider history = second_pass 0 (first_pass [] history)
