-- ===== src/Sessions/Spec.antt =====
-- What pkg/session/session_store.go promises: a conversation, and what each write makes of it.
use suprclaw_engine.Prelude.{◌-◌, List, [], ◌∷◌, ◌++◌, length, drop, none}
use suprclaw_engine.Prelude.Int.{ℤ, pos, negsuc}
use suprclaw_engine.Prelude.Text.{Text}
use suprclaw_engine.Prelude.Unicode.{Unicode}
use suprclaw_engine.Providers.Message.{Message}
use suprclaw_engine.Sessions.Manager.{normalize_discovered_tools}

pub record Conversation : Type 0 where
  pub history : List Message
  pub summary : Text
  pub discovered_tools : List Text

abbrev pub no_conversation : Conversation
no_conversation = record { history = []; summary = []; discovered_tools = [] }

-- The writing methods of `SessionStore`, without the key.
pub data StoreWrite : Type 0 where
  add : Message → StoreWrite
  add_plain : Text → Text → StoreWrite
  summarize : Text → StoreWrite
  discover : List Text → StoreWrite
  truncate : ℤ → StoreWrite
  replace : List Message → StoreWrite
  save : StoreWrite

abbrev pub plain : Text → Text → Message
plain role content = record {
  role = role;
  content = content;
  media = [];
  reasoning_content = [];
  usage = none;
  tool_calls = [];
  tool_call_id = [];
}

-- The last messages, as many as asked for; none for a number up to zero.
abbrev pub keep_last : ℤ → List Message → List Message
keep_last (pos n) history = drop (length history - n) history
keep_last (negsuc n) history = []

module _ ⦃u : Unicode⦄ where
  unfoldable pub apply : StoreWrite → Conversation → Conversation
  apply (add msg) c = record c { history = c.history ++ (msg ∷ []) }
  apply (add_plain role content) c = record c { history = c.history ++ (plain role content ∷ []) }
  apply (summarize summary) c = record c { summary = summary }
  apply (discover names) c = record c { discovered_tools = normalize_discovered_tools names }
  apply (truncate n) c = record c { history = keep_last n c.history }
  apply (replace history) c = record c { history = history }
  apply save c = c

  unfoldable pub apply_all : List StoreWrite → Conversation → Conversation
  apply_all [] c = c
  apply_all (w ∷ ws) c = apply_all ws (apply w c)
