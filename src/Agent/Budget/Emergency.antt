-- ===== src/Agent/Budget/Emergency.antt =====
-- pkg/agent/context_budget.go: emergencyTrimMessages.
pub mod Users
pub mod Gap
pub mod Laws
pub mod Trimmed
use suprclaw_engine.Prelude.{
  ℕ, zero, suc, ◌+◌, ◌-◌, max, Bool, true, false, ◌&&◌, ◌||◌, not, List, [], ◌∷◌, ◌++◌, Option,
  none, some, if◌then◌else◌, ltb, leb, ◌==◌, nat_eq, list_eq, is_nil, length, take, drop, map, all,
  contains, keep,
}
use suprclaw_engine.Prelude.Int.{ℤ}
use suprclaw_engine.Prelude.Text.{Text, codes}
use suprclaw_engine.Prelude.Unicode.{Unicode}
use suprclaw_engine.Providers.Message.{Message}
use suprclaw_engine.Agent.Float.{Float64}
use suprclaw_engine.Agent.History.Kept.{is_user}
use suprclaw_engine.Agent.Budget.{amount, positive_or, in_unit_or}
use suprclaw_engine.Agent.History.{
  Kind, system_kind, tool_kind, call_kind, user_kind, plain_kind, kind, accepts_call, call_ids,
  tool_run, sanitize_history_for_provider,
}

-- The last index whose message passes a test that may look at the messages behind it; `none` for
-- -1.
unfoldable pub latest_index : (Message → List Message → Bool) → List Message → Option ℕ
latest_index p [] = none
latest_index p (m ∷ ms) =
    let later = latest_index p ms in
    elim later [ some i ↦ some (suc i) | none ↦ if p m ms then some 0 else none ]

abbrev pub message_at : ℕ → List Message → Option Message
message_at i [] = none
message_at zero (m ∷ ms) = some m
message_at (suc i) (m ∷ ms) = message_at i ms

unfoldable pub find_latest_user_message_index : List Message → Option ℕ
find_latest_user_message_index messages = latest_index (λ m ms. is_user m) messages

abbrev pub is_call : Message → Bool
is_call m = m.role == codes "assistant" && not (is_nil m.tool_calls)

-- The ids of the calls, and that a result for each of them follows directly.
unfoldable pub is_boundary : Message → List Message → Bool
is_boundary m ms =
    let expected = keep (λ id. not (is_nil id)) (call_ids m) in
    is_call m
    && not (is_nil expected)
    && all (contains (map (λ (t : Message). t.tool_call_id) (tool_run ms))) expected

-- The search stops at index 1.
unfoldable pub find_latest_tool_boundary_start : List Message → Option ℕ
find_latest_tool_boundary_start [] = none
find_latest_tool_boundary_start (m ∷ ms) = elim (latest_index is_boundary ms) [
  | none ↦ none
  | some i ↦ some (suc i)
]

-- The role is "user" or "tool".
abbrev pub is_bridge : Message → Bool
is_bridge m = is_user m || m.role == codes "tool"

abbrev pub at_least_one : ℕ → ℕ
at_least_one n = if ltb n 1 then 1 else n

-- `if idx > 0 && idx < start { start = idx }`.
abbrev pub move_start : Option ℕ → ℕ → ℕ
move_start none start = start
move_start (some idx) start = if ltb 0 idx && ltb idx start then idx else start

-- What the boundary needs directly before it.
abbrev pub bridge_at : Option Message → List Message → List Message
bridge_at none conversation = conversation
bridge_at (some m) conversation = m ∷ conversation

-- The last message from index 1 that a turn with calls may follow.
unfoldable pub latest_bridge : List Message → Option Message
latest_bridge [] = none
latest_bridge (m ∷ ms) =
    let later = latest_bridge ms in
    elim later [ some b ↦ some b | none ↦ if is_bridge m then some m else none ]

-- `prevValid`.
unfoldable pub prev_valid : ℕ → List Message → Bool
prev_valid zero conversation = false
prev_valid (suc i) conversation = elim (message_at i conversation) [
  | none ↦ false
  | some m ↦ is_bridge m
]

-- Nothing may stand between the boundary and the last message that it may follow.
unfoldable pub close_gap : List Message → ℕ → ℕ → List Message → List Message
close_gap messages boundary local_boundary conversation =
    elim (latest_index (λ m ms. is_bridge m) (take local_boundary conversation)) [
      | some bridge ↦ take (suc bridge) conversation ++ drop local_boundary conversation
      | none ↦ bridge_at (latest_bridge (drop 1 (take boundary messages))) conversation
    ]

unfoldable pub fix_boundary : List Message → ℕ → List Message → Option ℕ → List Message
fix_boundary messages start conversation none = conversation
fix_boundary messages start conversation (some boundary) =
    let local_boundary = boundary - start in
    let is_turn : Bool = elim (message_at local_boundary conversation) [
      | none ↦ false
      | some m ↦ is_call m
    ] in
    if leb start boundary && is_turn && not (prev_valid local_boundary conversation)
    then close_gap messages boundary local_boundary conversation
    else conversation

abbrev pub with_system : Message → List Message → List Message
with_system system [] = system ∷ []
with_system system (m ∷ trimmed) =
    if m.role == codes "system" then m ∷ trimmed else system ∷ m ∷ trimmed

module _ ⦃f : Float64⦄ where
  -- The start that keeps the share and the recent messages.
  unfoldable pub share_start : List Message → f.Ratio → ℤ → ℕ
  share_start messages retention_ratio preserve_recent =
      let total = length messages in
      let keep_conversation =
        at_least_one (f.scale_up (total - 1) (in_unit_or (f.hundredths 60) retention_ratio)) in
      let start = at_least_one (total - keep_conversation) in
      let recent_start = at_least_one (total - amount (positive_or 6 preserve_recent)) in
      if ltb recent_start start then recent_start else start

  -- Where the conversation that is kept starts.
  unfoldable pub trim_start : List Message → f.Ratio → ℤ → ℕ
  trim_start messages retention_ratio preserve_recent =
      let start = share_start messages retention_ratio preserve_recent in
      let start = move_start (find_latest_user_message_index messages) start in
      move_start (find_latest_tool_boundary_start messages) start

  unfoldable pub trim_conversation : List Message → f.Ratio → ℤ → List Message
  trim_conversation messages retention_ratio preserve_recent =
      let start = trim_start messages retention_ratio preserve_recent in
      fix_boundary messages start (drop start messages) (find_latest_tool_boundary_start messages)

  unfoldable pub emergency_trim_messages : ⦃u : Unicode⦄ → List Message → f.Ratio → ℤ → List Message
  emergency_trim_messages [] retention_ratio preserve_recent = []
  emergency_trim_messages (system ∷ ms) retention_ratio preserve_recent =
      let messages = system ∷ ms in
      if leb (length messages) 2
      then messages
      else with_system system (
          sanitize_history_for_provider
            (system ∷ trim_conversation messages retention_ratio preserve_recent))
