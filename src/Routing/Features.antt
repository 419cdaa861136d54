-- ===== src/Routing/Features.antt =====
-- pkg/routing/features.go: the structural features of a message.
use suprclaw_engine.Prelude.{
  ℕ, suc, ◌+◌, ◌-◌, ◌/◌, ◌≤◌, ◌≡◌, refl, ap, Bool, ◌&&◌, ◌||◌, List, [], ◌∷◌, ◌++◌, if◌then◌else◌,
  leb, length, drop, length-append, any, arith,
}
use suprclaw_engine.Prelude.Text.{Text, codes, contains_text, count_text}
use suprclaw_engine.Prelude.Unicode.{Unicode, to_lower}
use suprclaw_engine.Providers.Message.{Message}

abbrev pub lookback_window : ℕ
lookback_window = 6

pub record Features : Type 0 where
  pub token_estimate : ℕ
  pub code_block_count : ℕ
  pub recent_tool_calls : ℕ
  pub conversation_depth : ℕ
  pub has_attachments : Bool

unfoldable pub is_cjk : ℕ → Bool
is_cjk r =
    leb 0x2E80 r && leb r 0x9FFF || leb 0xF900 r && leb r 0xFAFF || leb 0xAC00 r && leb r 0xD7AF

-- The loop of `estimateTokens`.
unfoldable pub count_cjk : Text → ℕ
unfolding is_cjk
count_cjk [] = 0
count_cjk (r ∷ msg) = let rest = count_cjk msg in if is_cjk r then suc rest else rest

-- A text is never longer than the range of `int`, so the sums do not wrap.
unfoldable pub estimate_tokens : Text → ℕ
estimate_tokens [] = 0
estimate_tokens (r ∷ msg) =
    let total = length (r ∷ msg) in let cjk = count_cjk (r ∷ msg) in cjk + (total - cjk) / 4

unfoldable pub count_code_blocks : Text → ℕ
count_code_blocks msg = count_text (codes "```") 0 msg / 2

-- The loop of `countRecentToolCalls`.
unfoldable pub sum_tool_calls : List Message → ℕ
sum_tool_calls [] = 0
sum_tool_calls (msg ∷ history) = length msg.tool_calls + sum_tool_calls history

-- `-` stops at 0, as the clamp of `start` does.
unfoldable pub count_recent_tool_calls : List Message → ℕ
unfolding sum_tool_calls
count_recent_tool_calls history = sum_tool_calls (drop (length history - lookback_window) history)

-- The data URIs and the file extensions that are looked for.
abbrev pub media_marks : List Text
media_marks =
    codes "data:image/"
    ∷ codes "data:audio/"
    ∷ codes "data:video/"
    ∷ codes ".jpg"
    ∷ codes ".jpeg"
    ∷ codes ".png"
    ∷ codes ".gif"
    ∷ codes ".webp"
    ∷ codes ".bmp"
    ∷ codes ".mp3"
    ∷ codes ".wav"
    ∷ codes ".ogg"
    ∷ codes ".m4a"
    ∷ codes ".flac"
    ∷ codes ".mp4"
    ∷ codes ".avi"
    ∷ codes ".mov"
    ∷ codes ".webm"
    ∷ []

module _ ⦃u : Unicode⦄ where
  unfoldable pub has_attachments : Text → Bool
  has_attachments msg = any (contains_text (to_lower msg)) media_marks

  unfoldable pub extract_features : Text → List Message → Features
  unfolding has_attachments count_recent_tool_calls count_code_blocks estimate_tokens
  extract_features msg history = record {
    token_estimate = estimate_tokens msg;
    code_block_count = count_code_blocks msg;
    recent_tool_calls = count_recent_tool_calls history;
    conversation_depth = length history;
    has_attachments = has_attachments msg;
  }

count_cjk-le : (msg : Text) → count_cjk msg ≤ length msg
unfolding count_cjk
count_cjk-le [] = omega arith
count_cjk-le (r ∷ msg) = ground (arith, count_cjk-le msg)

-- The estimate lies between a quarter of the number of characters, rounded down, and that number.
estimate_tokens_bounds :
    (msg : Text) → (length msg / 4 ≤ estimate_tokens msg) × (estimate_tokens msg ≤ length msg)
unfolding estimate_tokens
estimate_tokens_bounds [] = (omega arith, omega arith)
estimate_tokens_bounds (r ∷ msg) =
    (omega (arith, count_cjk-le (r ∷ msg)), omega (arith, count_cjk-le (r ∷ msg)))

last_of-append :
    (n : ℕ) (old history : List Message)
    → n ≤ length history
    → drop (length (old ++ history) - n) (old ++ history) ≡ drop (length history - n) history
last_of-append n [] history h = refl
last_of-append n (m ∷ old) history h =
    let e : suc (length (old ++ history)) - n ≡ suc (length (old ++ history) - n) =
      omega (arith, length-append old history) in
    rw e (last_of-append n old history h)

-- Tool calls of messages before the last six do not count: history in front of six or more messages
-- changes nothing.
count_recent_tool_calls-append :
    (old history : List Message)
    → 6 ≤ length history
    → count_recent_tool_calls (old ++ history) ≡ count_recent_tool_calls history
unfolding count_recent_tool_calls
count_recent_tool_calls-append old history h = ap sum_tool_calls (last_of-append 6 old history h)
