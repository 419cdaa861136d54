-- ===== src/Agent/Budget/Prune.antt =====
-- pkg/agent/context_budget.go: pruneLowValueHistoricalPayloads.
pub mod Laws
use suprclaw_engine.Prelude.{
  ℕ, zero, suc, ◌-◌, Bool, true, false, ◌&&◌, ◌||◌, not, List, [], ◌∷◌, ◌++◌, if◌then◌else◌, ltb,
  leb, ◌==◌, nat_eq, list_eq, is_nil, length, take,
}
use suprclaw_engine.Prelude.Int.{ℤ}
use suprclaw_engine.Prelude.Text.{Text, codes, byte_length}
use suprclaw_engine.Prelude.Unicode.{Unicode, trim_space}
use suprclaw_engine.Providers.Message.{Message}
use suprclaw_engine.Agent.History.Alike.{with_content}
use suprclaw_engine.Agent.Budget.{amount, positive_or}

module _ ⦃u : Unicode⦄ where
  -- The callers keep a positive number of code points.
  unfoldable pub compact_text : Text → ℕ → Text → Text
  compact_text text keep_runes suffix =
      if leb (length text) keep_runes then text else trim_space (take keep_runes text) ++ suffix

  -- A message, and whether a case of the switch applies.
  unfoldable pub prune_message : Message → Message × Bool
  prune_message msg =
      let is_assistant = msg.role == codes "assistant" in
      let size = byte_length msg.content in
      if msg.role == codes "tool" && ltb 1200 size
      then (
        with_content msg (
            compact_text msg.content 450 (10 ∷ codes "[tool output truncated for context budget]")),
        true,
      )
      else if is_assistant && is_nil msg.tool_calls && ltb 1800 size
      then (
        with_content msg (
            compact_text msg.content 800
              (10 ∷ codes "[assistant content truncated for context budget]")),
        true,
      )
      else if is_assistant && not (is_nil msg.tool_calls) && ltb 800 size
      then (
        with_content msg
            (compact_text msg.content 300 (10 ∷ codes "[assistant tool preface truncated]")),
        true,
      )
      else (msg, false)

  -- The first messages of a list.
  unfoldable pub prune_first : ℕ → List Message → List Message × Bool
  prune_first zero messages = (messages, false)
  prune_first (suc n) [] = ([], false)
  prune_first (suc n) (m ∷ messages) =
      let (updated, changed) = prune_first n messages in
      ((prune_message m).0 ∷ updated, (prune_message m).1 || changed)

  abbrev pub trim_before : List Message → ℤ → ℕ
  trim_before messages preserve_recent =
      let bound = length messages - amount (positive_or 6 preserve_recent) in
      if ltb bound 1 then 1 else bound

  -- The loop starts at index 1.
  unfoldable pub prune_low_value_historical_payloads : List Message → ℤ → List Message × Bool
  prune_low_value_historical_payloads [] preserve_recent = ([], false)
  prune_low_value_historical_payloads (first ∷ messages) preserve_recent =
      let (updated, changed) =
        prune_first (trim_before (first ∷ messages) preserve_recent - 1) messages in
      (first ∷ updated, changed)
