-- ===== src/Memory/Format/Tests.antt =====
-- Runs of the JSONL store, and its theorems at concrete data.
use suprclaw_engine.Prelude.{
  take, ℕ, ◌≡◌, ◌≤◌, refl, true, List, [], ◌∷◌, ◌++◌, none, map, length, list_eq, nat_eq, keep, not,
  some, is_nil,
}
use suprclaw_engine.Prelude.Int.{pos}
use suprclaw_engine.Prelude.Scan.{scan, split_lines, drop_cr}
use suprclaw_engine.Prelude.Text.{Text, codes, trim_left, trim_right, byte_length}
use suprclaw_engine.Prelude.Unicode.{trim_space}
use suprclaw_engine.Prelude.Unicode.Ascii.{ascii}
use suprclaw_engine.Providers.Message.{Message}
use suprclaw_engine.Sessions.Spec.{
  keep_last, Conversation, no_conversation, plain, StoreWrite, add, summarize, discover, truncate,
  save, apply_all,
}
use suprclaw_engine.Memory.Disk.{
  SessionMeta, max_line_size, Disk, ok, stored, sanitize_key, read_meta, recover_meta, write_meta,
  file_lines, read_messages, count_lines, decode_lines, new_meta,
}
use suprclaw_engine.Memory.Store.{
  perform_writes, set_history_writes, add_msg, append_line, count_message, get_history,
  truncate_history, skip_to, rewrite_jsonl, compact,
}
use suprclaw_engine.Memory.Format.{
  length_json, encode_message, decode_message, encode_meta, decode_meta, whole, as_message, as_meta,
  pair, list, parse_pair, parse_list, parse_items, print_items, parse_number, number,
}
use suprclaw_engine.Memory.Format.Sessions.{session_json}
use suprclaw_engine.Prelude.Sort.{text_lt}
use suprclaw_engine.Sessions.Files.{
  stored_session, Storage, saved, is_json_file, session_in, load_sessions,
}
use suprclaw_engine.Sessions.Files
use suprclaw_engine.Sessions.Files.Laws.{save-load_sessions}
use suprclaw_engine.Memory.Interface.{jsonl_store}
use suprclaw_engine.Memory.Refinement.{Stands, fresh-Stands}
use suprclaw_engine.Memory.Refinement.Writes.{appended-Stands, truncated-Stands}
use suprclaw_engine.Prelude.Scan.Laws.{fits}
use suprclaw_engine.Sessions.Agreement.{stores_agree}
use suprclaw_engine.Sessions.Backend
use suprclaw_engine.Sessions.Backend.Laws.{writes_fit, writes, perform_all_refines}
use suprclaw_engine.Sessions.Manager
use suprclaw_engine.Sessions.Manager.{
  get_or_create, new_session_manager, Session, SessionManager, put, sanitize_filename,
}
use suprclaw_engine.Sessions.Manager.Refinement
use suprclaw_engine.Sessions.Manager.Refinement.{}
use suprclaw_engine.Memory.Refinement.Crash.{torn_append, torn_append-history, add_msg-torn_append}
use suprclaw_engine.Memory.Refinement.Interrupted.{IsInterrupted, set_history-IsInterrupted}

abbrev chat : Text
chat = codes "agent:main:main"

abbrev no_files : Disk
no_files = record { messages = λ name. none; metas = λ name. none }

abbrev hello : Message
hello = plain (codes "user") (codes "hello")

abbrev hi : Message
hi = plain (codes "assistant") (codes "hi")

two_messages : Disk
two_messages = (add_msg length_json 2 chat hi (add_msg length_json 1 chat hello no_files).0).0

get_history_runs :
    (get_history length_json chat two_messages ≡ ok (hello ∷ hi ∷ []))
    × (get_history length_json chat (truncate_history length_json 3 chat (pos 1) two_messages).0
        ≡ ok (hi ∷ []))
    × (get_history length_json chat
          (add_msg length_json 5 chat hello
            (compact length_json 4 chat
              (truncate_history length_json 3 chat (pos 1) two_messages).0).0).0
        ≡ ok (hi ∷ hello ∷ []))
unfolding two_messages get_history add_msg append_line count_message truncate_history skip_to
    compact rewrite_jsonl read_messages count_lines file_lines decode_lines read_meta recover_meta
    write_meta sanitize_key scan split_lines drop_cr byte_length keep trim_space trim_left
    trim_right length_json encode_message decode_message encode_meta decode_meta whole as_message
    as_meta pair list parse_pair parse_list parse_items print_items parse_number list_eq nat_eq
get_history_runs = (refl, refl, refl)

abbrev one_message : Conversation
one_message = record { history = hello ∷ []; summary = []; discovered_tools = [] }

abbrev one_stored : Disk
one_stored = (add_msg length_json 1 chat hello no_files).0

hello-fits : fits max_line_size (length_json.encode_message hello) ≡ true
unfolding byte_length length_json encode_message pair list print_items number
hello-fits = refl

one_stored-Stands : Stands length_json chat one_stored one_message
one_stored-Stands =
    appended-Stands length_json chat 1 hello no_files no_conversation hello-fits
      (fresh-Stands length_json chat no_files refl refl)

torn_append-history_example :
    (more : List Message) × (get_history length_json chat
        (torn_append length_json chat 9 hi one_stored)
      ≡ ok (map stored one_message.history ++ more))
    × (length more ≤ 1)
unfolding byte_length length_json encode_message pair list print_items number
torn_append-history_example =
    torn_append-history length_json chat 9 hi one_stored one_message refl one_stored-Stands

add_msg-torn_append_example :
    let (after, result) =
      add_msg length_json 3 chat hello (torn_append length_json chat 9 hi one_stored) in
    (result ≡ ok tt) × (get_history length_json chat after ≡ ok (map stored one_message.history))
unfolding byte_length length_json encode_message decode_message whole as_message pair list number
    parse_pair parse_list parse_items print_items parse_number
add_msg-torn_append_example =
    add_msg-torn_append length_json chat 3 9 hi hello one_stored one_message refl refl
      one_stored-Stands

-- The only message is cut off; its line is still in the file.
abbrev cut_stored : Disk
cut_stored = (truncate_history length_json 3 chat (pos 0) one_stored).0

abbrev cut : Conversation
cut = record one_message { history = keep_last (pos 0) one_message.history }

cut_stored-Stands : Stands length_json chat cut_stored cut
cut_stored-Stands =
    truncated-Stands length_json chat 3 (pos 0) one_stored one_message one_stored-Stands

abbrev cut_meta : SessionMeta
cut_meta = record (count_message 1 (new_meta chat)) { count = 1; skip = 1; updated_at = 3 }

cut_meta_read : read_meta length_json chat cut_stored ≡ ok cut_meta
unfolding add_msg append_line count_message truncate_history skip_to count_lines file_lines scan
    split_lines drop_cr byte_length keep read_meta recover_meta write_meta sanitize_key trim_space
    trim_left trim_right length_json encode_message encode_meta decode_meta as_meta pair list
    parse_pair parse_list parse_items print_items parse_number number list_eq nat_eq
cut_meta_read = refl

set_history-IsInterrupted_example :
    IsInterrupted length_json chat cut_stored cut 1 (hi ∷ hello ∷ []) (
      perform_writes length_json
        (take 1 (set_history_writes length_json 2 chat (hi ∷ hello ∷ []) cut_meta))
        cut_stored)
unfolding byte_length length_json encode_message pair list print_items number
set_history-IsInterrupted_example =
    set_history-IsInterrupted length_json chat 1 2 (hi ∷ hello ∷ []) cut_stored cut cut_meta refl
      cut_stored-Stands cut_meta_read

abbrev some_writes : List (ℕ × StoreWrite)
some_writes =
    (1, add hello)
    ∷ (2, add hi)
    ∷ (3, truncate (pos 1))
    ∷ (4, save)
    ∷ (5, summarize (codes "greeting"))
    ∷ (6, discover (codes "web" ∷ []))
    ∷ []

some_writes_fit : writes_fit length_json chat some_writes ≡ true
unfolding byte_length length_json encode_message pair list print_items number
some_writes_fit = refl

perform_all_refines_example :
    let after = Backend.perform_all (jsonl_store length_json) chat some_writes no_files in
    let c = apply_all (writes length_json chat some_writes) no_conversation in
    (Backend.get_history (jsonl_store length_json) chat after ≡ map stored c.history)
    × (Backend.get_summary (jsonl_store length_json) chat after ≡ c.summary)
    × (Backend.get_discovered_tools (jsonl_store length_json) chat after ≡ c.discovered_tools)
perform_all_refines_example =
    perform_all_refines length_json chat some_writes no_files refl refl some_writes_fit

stores_agree_example :
    let sm' =
      Manager.Refinement.perform_all chat some_writes
        (get_or_create 7 8 chat new_session_manager).1 in
    let d' = Backend.perform_all (jsonl_store length_json) chat some_writes no_files in
    (Backend.get_history (jsonl_store length_json) chat d'
      ≡ map stored (Manager.get_history chat sm'))
    × (Backend.get_summary (jsonl_store length_json) chat d' ≡ Manager.get_summary chat sm')
    × (Backend.get_discovered_tools (jsonl_store length_json) chat d'
        ≡ Manager.get_discovered_tools chat sm')
unfolding new_session_manager
stores_agree_example =
    stores_agree length_json 7 8 chat some_writes new_session_manager no_files refl refl refl
      some_writes_fit

abbrev chat_session : Session
chat_session = record {
  key = chat;
  messages = plain (codes "user") (codes "hello") ∷ [];
  summary = [];
  discovered_tools = [];
  created = 1;
  updated = 2;
}

abbrev chat_manager : SessionManager
chat_manager = put chat chat_session new_session_manager

abbrev old_files : Storage
old_files = (codes "agent_main_main.json", codes "old") ∷ (codes "notes.txt", codes "x") ∷ []

save-load_sessions_example :
    (files : Storage) × (Files.save session_json
        (λ name. not (is_nil name))
        chat
        chat_manager
        (some old_files)
      ≡ saved (some files))
    × ((load_sessions session_json files new_session_manager).sessions chat
        ≡ some (stored_session chat_session))
unfolding list_eq nat_eq sanitize_filename session_in is_json_file text_lt
save-load_sessions_example =
    save-load_sessions session_json chat (λ name. not (is_nil name)) chat_session chat_manager
      new_session_manager old_files refl refl refl refl refl
