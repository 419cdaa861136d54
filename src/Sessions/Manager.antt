-- ===== src/Sessions/Manager.antt =====
-- The session manager of pkg/session/manager.go in memory. A Go map is a function. The
-- instants that `time.Now` returns are arguments, and the lock that every operation holds makes it
-- one step.
pub mod Tools
pub mod History
pub mod Laws
pub mod Refinement
use suprclaw_engine.Prelude.{
  ℕ, zero, suc, ◌-◌, ◌≡◌, Bool, true, false, List, [], ◌∷◌, ◌++◌, Option, none, some, if◌then◌else◌,
  ◌==◌, ltb, leb, nat_eq, list_eq, is_nil, contains, length, drop, map,
}
use suprclaw_engine.Prelude.Text.{Text}
use suprclaw_engine.Prelude.Int.{ℤ, pos, negsuc}
use suprclaw_engine.Prelude.Sort.{sort_strings}
use suprclaw_engine.Prelude.Unicode.{Unicode, trim_space}
use suprclaw_engine.Providers.Message.{Message}

-- `Summary` and `DiscoveredTools` are empty and `Updated` is the zero time when they are not set.
pub record Session : Type 0 where
  pub key : Text
  pub messages : List Message
  pub summary : Text
  pub discovered_tools : List Text
  pub created : ℕ
  pub updated : ℕ

pub record SessionManager : Type 0 where
  pub sessions : Text → Option Session

-- The manager without stored sessions.
unfoldable pub new_session_manager : SessionManager
new_session_manager = record { sessions = λ key. none }

-- `sm.sessions[key] = session`, and a write through the pointer that the map holds.
abbrev pub put : Text → Session → SessionManager → SessionManager
put key session sm = record { sessions = λ k. if k == key then some session else sm.sessions k }

-- The session that an operation starts with when the key has none.
abbrev pub new_session : Text → ℕ → ℕ → Session
new_session key created updated = record {
  key = key;
  messages = [];
  summary = [];
  discovered_tools = [];
  created = created;
  updated = updated;
}

unfoldable pub get_or_create : ℕ → ℕ → Text → SessionManager → Session × SessionManager
get_or_create created updated key sm = elim (sm.sessions key) [
  | some session ↦ (session, sm)
  | none ↦ let session = new_session key created updated in (session, put key session sm)
]

-- The session of the key, or a new one whose `Updated` is not set yet.
abbrev pub session_for : ℕ → Text → SessionManager → Session
session_for created key sm = elim (sm.sessions key) [
  | some session ↦ session
  | none ↦ new_session key created 0
]

-- `created` and `updated` are the two instants of the call.
unfoldable pub add_full_message : ℕ → ℕ → Text → Message → SessionManager → SessionManager
add_full_message created updated key msg sm =
    let session = session_for created key sm in
    put key (record session { messages = session.messages ++ (msg ∷ []); updated = updated }) sm

unfoldable pub add_message : ℕ → ℕ → Text → Text → Text → SessionManager → SessionManager
add_message created updated key role content sm =
    add_full_message created updated key
      (record {
        role = role;
        content = content;
        media = [];
        reasoning_content = [];
        usage = none;
        tool_calls = [];
        tool_call_id = [];
      })
      sm

unfoldable pub get_history : Text → SessionManager → List Message
get_history key sm = elim (sm.sessions key) [ none ↦ [] | some session ↦ session.messages ]

unfoldable pub get_summary : Text → SessionManager → Text
get_summary key sm = elim (sm.sessions key) [ none ↦ [] | some session ↦ session.summary ]

unfoldable pub set_summary : ℕ → Text → Text → SessionManager → SessionManager
set_summary now key summary sm = elim (sm.sessions key) [
  | none ↦ sm
  | some session ↦ put key (record session { summary = summary; updated = now }) sm
]

unfoldable pub get_discovered_tools : Text → SessionManager → List Text
get_discovered_tools key sm = elim (sm.sessions key) [
  | none ↦ []
  | some session ↦ session.discovered_tools
]

-- A session cut to its last messages. A number up to zero drops all of them.
unfoldable pub truncate_session : ℕ → ℤ → Session → Session
truncate_session now (pos (suc n)) session =
    let total = length session.messages in
    if leb total (suc n)
    then session
    else record session { messages = drop (total - suc n) session.messages; updated = now }
truncate_session now (pos zero) session = record session { messages = []; updated = now }
truncate_session now (negsuc n) session = record session { messages = []; updated = now }

unfoldable pub truncate_history : ℕ → Text → ℤ → SessionManager → SessionManager
truncate_history now key keep_last sm = elim (sm.sessions key) [
  | none ↦ sm
  | some session ↦ put key (truncate_session now keep_last session) sm
]

unfoldable pub set_history : ℕ → Text → List Message → SessionManager → SessionManager
set_history now key history sm = elim (sm.sessions key) [
  | none ↦ sm
  | some session ↦ put key (record session { messages = history; updated = now }) sm
]

-- `strings.ReplaceAll` of one character by another.
abbrev pub replace_all : ℕ → ℕ → Text → Text
replace_all old new = map (λ c. if c == old then new else c)

unfoldable pub sanitize_filename : Text → Text
sanitize_filename key = replace_all b'\\' b'_' (replace_all b'/' b'_' (replace_all b':' b'_' key))

-- The variables of the loop of `normalizeDiscoveredTools`.
pub record ToolNames : Type 0 where
  pub seen : List Text
  pub out : List Text

module _ ⦃u : Unicode⦄ where
  -- One turn of that loop.
  unfoldable pub add_tool_name : Text → ToolNames → ToolNames
  add_tool_name name names =
      let trimmed = trim_space name in
      if is_nil trimmed
      then names
      else if contains names.seen trimmed
      then names
      else record { seen = trimmed ∷ names.seen; out = names.out ++ (trimmed ∷ []) }

  unfoldable pub add_tool_names : List Text → ToolNames → ToolNames
  add_tool_names [] names = names
  add_tool_names (name ∷ more) names = add_tool_names more (add_tool_name name names)

  unfoldable pub normalize_discovered_tools : List Text → List Text
  normalize_discovered_tools [] = []
  normalize_discovered_tools (name ∷ more) =
      sort_strings ((add_tool_names (name ∷ more) (record { seen = []; out = [] })).out)

  unfoldable pub set_discovered_tools : ℕ → ℕ → Text → List Text → SessionManager → SessionManager
  set_discovered_tools created updated key names sm =
      let session = session_for created key sm in
      put key
        (record session { discovered_tools = normalize_discovered_tools names; updated = updated })
        sm
