-- ===== src/Providers/ErrorClassifier/Laws.antt =====
-- What a classification says.
use suprclaw_engine.Prelude.{
  ℕ, ◌≡◌, ◌≢◌, ◌⊎◌, Bool, true, false, Option, none, some, arith, Option-cases, inl, inr, nat_eq,
}
use suprclaw_engine.Prelude.Text.{Text}
use suprclaw_engine.Prelude.Unicode.{Unicode, to_lower, to_lower_idem}
use suprclaw_engine.Providers.Failover.{
  FailoverReason, overloaded, unknown, Error, canceled, deadline_exceeded, other, FailoverError,
}
use suprclaw_engine.Providers.ErrorClassifier.{
  classify_by_status, classify_by_message, classify_message, classify_error, extract_http_status,
}

-- The reasons that are acted upon: an overload is reported as a rate limit.
abbrev pub is_reported : FailoverReason → Bool
is_reported overloaded = false
is_reported unknown = false
is_reported _ = true

by_status_reported :
    (s : ℕ) (r : FailoverReason) → classify_by_status s ≡ some r → (is_reported r ≡ true)
unfolding classify_by_status
by_status_reported s r h = ground arith

by_message_reported :
    (msg : Text) (r : FailoverReason) → classify_by_message msg ≡ some r → is_reported r ≡ true
unfolding classify_by_message
by_message_reported msg r h = ground arith

message_sound :
    (msg : Text) (r : FailoverReason) (status : ℕ)
    → classify_message msg ≡ some (r, status)
    → (is_reported r ≡ true) × ((status ≡ 0) ⊎ (classify_by_status status ≡ some r))
unfolding classify_message
message_sound msg r status h =
    ground (arith, by_message_reported msg r, by_status_reported (extract_http_status msg) r)

module _ ⦃u : Unicode⦄ where
  -- A classified error keeps the provider, the model and the error that it is about, is no user abort
  -- and has one of the reasons `auth`, `rate_limit`, `billing`, `timeout` and `format`; if it has a
  -- status, the table of statuses gives its reason.
  pub classify_error_sound :
      (err : Error) (provider model : Text) (e : FailoverError)
      → classify_error err provider model ≡ some e
      → (e.provider ≡ provider)
        × (e.model ≡ model)
        × (e.wrapped ≡ err)
        × (err ≢ canceled)
        × (is_reported e.reason ≡ true)
        × ((e.status ≡ 0) ⊎ (classify_by_status e.status ≡ some e.reason))
  unfolding classify_error
  classify_error_sound canceled provider model e h = absurd (ground arith)
  classify_error_sound deadline_exceeded provider model e h = ground arith
  classify_error_sound (other text) provider model e h =
      elim (Option-cases (classify_message (to_lower text))) [
        | inl nothing ↦ absurd (ground arith)
        | inr (found, hit) ↦
            let s = message_sound (to_lower text) found.0 found.1 hit in ground (arith, s)
      ]

  abbrev pub reason_and_status : Option FailoverError → Option (FailoverReason × ℕ)
  reason_and_status none = none
  reason_and_status (some e) = some (e.reason, e.status)

  reason_and_status-other :
      (text provider model : Text)
      → reason_and_status (classify_error (other text) provider model)
        ≡ classify_message (to_lower text)
  unfolding classify_error
  reason_and_status-other text provider model = ground arith

  -- The reason and the status do not depend on the case of the error's text.
  classify_error-to_lower :
      (text provider model : Text)
      → reason_and_status (classify_error (other (to_lower text)) provider model)
        ≡ reason_and_status (classify_error (other text) provider model)
  classify_error-to_lower text provider model = rw (
    reason_and_status-other (to_lower text) provider model,
    reason_and_status-other text provider model,
    to_lower_idem text,
  )
