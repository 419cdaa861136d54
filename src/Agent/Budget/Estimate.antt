-- ===== src/Agent/Budget/Estimate.antt =====
-- pkg/agent/context_budget.go and loop.go: how many tokens the input takes.
use suprclaw_engine.Prelude.{
  ℕ, suc, ◌+◌, ◌*◌, ◌/◌, List, [], ◌∷◌, Option, none, some, if◌then◌else◌, ltb, ◌==◌, nat_eq,
  list_eq, length, drop,
}
use suprclaw_engine.Prelude.Text.{codes}
use suprclaw_engine.Providers.Message.{Message, UsageInfo}

-- `countSource`.
pub data CountSource : Type 0 where
  usage_anchor : CountSource
  estimator : CountSource

unfoldable pub estimate_input_tokens_with_overhead : ℕ → ℕ
estimate_input_tokens_with_overhead tokens =
    let est = tokens + tokens / 10 + 512 in if ltb est 512 then 512 else est

-- The usage that an assistant message reports.
abbrev pub anchor_of : Message → Option UsageInfo
anchor_of msg =
    if msg.role == codes "assistant"
    then elim msg.usage [
      | none ↦ none
      | some usage ↦ if ltb 0 usage.total_tokens then some usage else none
    ]
    else none

-- The index and the usage of the last message that reports one; `none` for -1.
unfoldable pub latest_usage_anchor : List Message → Option (ℕ × UsageInfo)
latest_usage_anchor [] = none
latest_usage_anchor (msg ∷ messages) =
    let later = latest_usage_anchor messages in
    elim later [
      | some (idx, usage) ↦ some (suc idx, usage)
      | none ↦ elim (anchor_of msg) [ none ↦ none | some usage ↦ some (0, usage) ]
    ]

abbrev pub total_chars : List Message → ℕ
total_chars [] = 0
total_chars (m ∷ messages) = length m.content + total_chars messages

unfoldable pub estimate_tokens : List Message → ℕ
estimate_tokens messages = total_chars messages * 2 / 5

-- `idx+1 < len(messages)` guards an estimate of no messages, which is 0.
unfoldable pub estimate_input_tokens : List Message → ℕ × CountSource
estimate_input_tokens messages = elim (latest_usage_anchor messages) [
  | some (idx, usage) ↦
      let tail = drop (suc idx) messages in
      let tail_tokens = if ltb (suc idx) (length messages) then estimate_tokens tail else 0 in
      (usage.total_tokens + estimate_input_tokens_with_overhead tail_tokens, usage_anchor)
  | none ↦ (estimate_input_tokens_with_overhead (estimate_tokens messages), estimator)
]
