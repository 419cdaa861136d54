-- ===== src/Providers/Message.antt =====
-- pkg/providers/protocoltypes/types.go: messages and tool calls, with the fields that the modelled
-- code reads or copies. Arguments and provider extras of a tool call are left out.
use suprclaw_engine.Prelude.{List, Option, ℕ}
use suprclaw_engine.Prelude.Text.{Text}

pub record FunctionCall : Type 0 where
  pub name : Text
  pub arguments : Text

pub record ToolCall : Type 0 where
  pub id : Text
  pub type : Text
  pub function : Option FunctionCall
  pub name : Text

pub record UsageInfo : Type 0 where
  pub prompt_tokens : ℕ
  pub completion_tokens : ℕ
  pub total_tokens : ℕ

pub record Message : Type 0 where
  pub role : Text
  pub content : Text
  pub media : List Text
  pub reasoning_content : Text
  pub usage : Option UsageInfo
  pub tool_calls : List ToolCall
  pub tool_call_id : Text
