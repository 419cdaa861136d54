-- ===== src/Sessions/Tests.antt =====
-- Runs of the session manager, and its theorems at concrete data.
use suprclaw_engine.Prelude.{◌≡◌, refl, [], ◌∷◌, none, nat_eq, list_eq}
use suprclaw_engine.Prelude.Int.{pos}
use suprclaw_engine.Prelude.Text.{Text, codes, trim_left, trim_right}
use suprclaw_engine.Prelude.Sort.{sort_strings, insert_text, text_lt}
use suprclaw_engine.Prelude.Unicode.{trim_space}
use suprclaw_engine.Prelude.Unicode.Ascii.{ascii}
use suprclaw_engine.Providers.Message.{Message}
use suprclaw_engine.Sessions.Manager.{
  SessionManager, new_session_manager, add_message, add_full_message, get_history, truncate_history,
  truncate_session, normalize_discovered_tools, add_tool_names, add_tool_name,
}

abbrev chat : Text
chat = codes "agent:main:main"

abbrev hello : Message
hello = record {
  role = codes "user";
  content = codes "hello";
  media = [];
  reasoning_content = [];
  usage = none;
  tool_calls = [];
  tool_call_id = [];
}

abbrev two_messages : SessionManager
two_messages =
    add_message 3 4 chat (codes "assistant") (codes "hi")
      (add_full_message 1 2 chat hello new_session_manager)

normalize_discovered_tools_runs :
    normalize_discovered_tools (codes " web" ∷ codes "" ∷ codes "exec" ∷ codes "web " ∷ [])
    ≡ (codes "exec" ∷ codes "web" ∷ [])
unfolding normalize_discovered_tools add_tool_names add_tool_name sort_strings insert_text text_lt
    trim_space trim_left trim_right list_eq nat_eq
normalize_discovered_tools_runs = refl

truncate_history_runs :
    get_history chat
      (truncate_history 5 chat (pos 2) (add_full_message 6 7 chat hello two_messages))
    ≡ get_history chat
        (add_full_message 8 9 chat hello (truncate_history 5 chat (pos 1) two_messages))
unfolding get_history truncate_history truncate_session add_message add_full_message
    new_session_manager list_eq nat_eq
truncate_history_runs = refl
