-- ===== src/Routing/AgentId.antt =====
-- pkg/routing/agent_id.go: agent and account ids made safe for keys and paths.
pub mod Laws
pub mod Stable
use suprclaw_engine.Prelude.{
  ℕ, suc, Bool, true, false, ◌&&◌, ◌||◌, not, List, [], ◌∷◌, if◌then◌else◌, leb, ltb, ◌==◌, nat_eq,
  list_eq, length, take, is_nil, all,
}
use suprclaw_engine.Prelude.Text.{Text, codes, trim_left, trim_right}
use suprclaw_engine.Prelude.Unicode.{Unicode, to_lower, trim_space}

abbrev pub default_agent_id : Text
default_agent_id = codes "main"

abbrev pub default_main_key : Text
default_main_key = codes "main"

abbrev pub default_heartbeat_key : Text
default_heartbeat_key = codes "heartbeat"

abbrev pub default_account_id : Text
default_account_id = codes "default"

abbrev pub max_agent_id_length : ℕ
max_agent_id_length = 64

-- `[a-z0-9]`.
unfoldable pub is_alnum : ℕ → Bool
is_alnum c = leb b'a' c && leb c b'z' || leb b'0' c && leb c b'9'

unfoldable pub is_dash : ℕ → Bool
is_dash c = leb b'-' c && leb c b'-'

-- `[a-z0-9_-]`.
unfoldable pub is_id_char : ℕ → Bool
unfolding is_alnum is_dash
is_id_char c = is_alnum c || leb b'_' c && leb c b'_' || is_dash c

-- `validIDRe`: `^[a-z0-9][a-z0-9_-]{0,63}$`.
unfoldable pub valid_id : Text → Bool
valid_id [] = false
valid_id (c ∷ s) = is_alnum c && all is_id_char s && leb (length s) 63

-- `invalidCharsRe.ReplaceAllString(s, "-")`: each run of other characters becomes one dash. The
-- flag tells whether the previous character belonged to such a run.
unfoldable pub replace_invalid : Bool → Text → Text
replace_invalid in_run [] = []
replace_invalid in_run (c ∷ s) =
    let rest = replace_invalid (not (is_id_char c)) s in
    if is_id_char c then c ∷ rest else if in_run then rest else b'-' ∷ rest

-- The replacements of `invalidCharsRe`, `leadingDashRe` and `trailingDashRe`, and the cut.
unfoldable pub sanitize : Text → Text
sanitize lower =
    let result = trim_right is_dash (trim_left is_dash (replace_invalid false lower)) in
    if ltb max_agent_id_length (length result) then take max_agent_id_length result else result

module _ ⦃u : Unicode⦄ where
  -- The common text of both functions, over the id for an empty result.
  unfoldable pub normalize_id : Text → Text → Text
  normalize_id default id =
      let trimmed = trim_space id in
      if is_nil trimmed
      then default
      else let lower = to_lower trimmed in
        if valid_id lower
        then lower
        else let result = sanitize lower in if is_nil result then default else result

  unfoldable pub normalize_agent_id : Text → Text
  unfolding normalize_id
  normalize_agent_id id = normalize_id default_agent_id id

  unfoldable pub normalize_account_id : Text → Text
  unfolding normalize_id
  normalize_account_id id = normalize_id default_account_id id
