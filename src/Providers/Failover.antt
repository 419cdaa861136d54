-- ===== src/Providers/Failover.antt =====
-- The failover types of pkg/providers/types.go. An empty reason of the source is `none`.
use suprclaw_engine.Prelude.{ℕ, Bool, true, false}
use suprclaw_engine.Prelude.Text.{Text}

pub data FailoverReason : Type 0 where
  auth rate_limit billing timeout format overloaded unknown : FailoverReason

unfoldable pub reason_discrete : Discrete FailoverReason
reason_discrete = hlevel

-- A Go `error`: the two values of package `context` that are compared, or any other with its text.
pub data Error : Type 0 where
  canceled deadline_exceeded : Error
  other : Text → Error

pub record FailoverError : Type 0 where
  pub reason : FailoverReason
  pub provider : Text
  pub model : Text
  pub status : ℕ
  pub wrapped : Error

abbrev pub is_format : FailoverReason → Bool
is_format format = true
is_format _ = false

-- `(*FailoverError).IsRetriable`.
abbrev pub is_retriable : FailoverReason → Bool
is_retriable format = false
is_retriable _ = true
