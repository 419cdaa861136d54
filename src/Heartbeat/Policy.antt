-- ===== src/Heartbeat/Policy.antt =====
-- pkg/heartbeat/policy.go: the acknowledgement that an agent with nothing to report answers.
pub mod Laws
use suprclaw_engine.Prelude.{
  ℕ, zero, suc, ◌<◌, Bool, true, false, List, [], ◌∷◌, ◌++◌, Option, none, some, if◌then◌else◌, leb,
  ltb, nat_eq, is_nil, contains,
}
use suprclaw_engine.Prelude.Int.{ℤ, pos, negsuc}
use suprclaw_engine.Prelude.Text.{Text, codes, trim_left, cut_text, byte_length}
use suprclaw_engine.Prelude.Unicode.{Unicode, trim_space}

abbrev pub heartbeat_ok_token : Text
heartbeat_ok_token = codes "HEARTBEAT_OK"

abbrev pub default_ack_max_chars : ℕ
default_ack_max_chars = 60

pub record StripResult : Type 0 where
  pub text : Text
  pub should_skip : Bool

-- The limit, or its default if it is not positive.
abbrev pub ack_limit : ℤ → ℕ
ack_limit (pos zero) = default_ack_max_chars
ack_limit (pos (suc n)) = suc n
ack_limit (negsuc n) = default_ack_max_chars

-- The characters that `strings.TrimLeft` takes off the tail.
abbrev pub is_noise : ℕ → Bool
is_noise c = contains (codes " \t\n\r.,!?;:") c

module _ ⦃u : Unicode⦄ where
  -- The part behind the search, on the texts before and after the token.
  unfoldable pub strip_around : ℕ → Text → Text → StripResult
  strip_around limit before after =
      let trimmed = trim_left is_noise after in
      let remaining = trim_space before in
      if ltb limit (byte_length trimmed)
      then record { text = trim_space (before ++ (b' ' ∷ trimmed)); should_skip = false }
      else if is_nil remaining
      then record { text = []; should_skip = true }
      else if leb (byte_length remaining) limit
      then record { text = remaining; should_skip = true }
      else record { text = remaining; should_skip = false }

  unfoldable pub strip_heartbeat_token : Text → ℤ → StripResult
  strip_heartbeat_token response ack_max_chars = elim (cut_text heartbeat_ok_token response) [
    | none ↦ record { text = response; should_skip = false }
    | some (before, after) ↦ strip_around (ack_limit ack_max_chars) before after
  ]

  unfoldable pub is_effectively_empty : Text → Bool
  is_effectively_empty response = is_nil (trim_space response)
