-- ===== src/Memory/Refinement.antt =====
-- The files of pkg/memory/jsonl.go against the conversations that they stand for.
pub mod Writes
pub mod Crash
pub mod Interrupted
use suprclaw_engine.Prelude.{
  ℕ, zero, suc, ◌+◌, ◌-◌, ◌≤◌, ◌≡◌, refl, sym, ◌∙◌, ap, Bool, true, false, ◌&&◌, ◌||◌, not, List,
  [], ◌∷◌, ◌++◌, Option, none, some, if◌then◌else◌, ◌==◌, nat_eq, list_eq, leb, ltb, is_nil, map,
  length, length-append, drop, all, arith, Bool-cases, inl, inr, ==_self,
}
use mathlib.Core.List.{map-append, append_assoc}
use suprclaw_engine.Prelude.Int.{ℤ, pos, negsuc}
use suprclaw_engine.Prelude.Scan.{newline, unlines}
use suprclaw_engine.Prelude.Scan.Laws.{fits, unlines-append}
use suprclaw_engine.Prelude.Text.{Text}
use suprclaw_engine.Prelude.Unicode.{Unicode}
use suprclaw_engine.Providers.Message.{Message}
use suprclaw_engine.Sessions.Spec.{
  Conversation, no_conversation, StoreWrite, add, add_plain, summarize, discover, truncate, replace,
  save, plain, keep_last, apply, apply_all,
}
use suprclaw_engine.Sessions.Manager.{normalize_discovered_tools}
use suprclaw_engine.Memory.Disk.{
  SessionMeta, Json, Disk, Result, ok, err, stored, file_lines, read_messages, read_meta,
  write_meta, content_or_empty, new_meta, created_by, max_line_size, sanitize_key, count_lines,
  put_messages,
}
use suprclaw_engine.Memory.Store.{
  add_msg, add_message, append_line, count_message, get_history, get_summary, get_discovered_tools,
  set_summary, set_discovered_tools, truncate_history, skip_to, set_history, rewrite_jsonl, compact,
}
use suprclaw_engine.Memory.Lines.{
  map-stored_idem, map-drop, length-map, encoded-stored, file_lines-unlines, encoded-are_lines,
  decode_lines-encoded, is_keyed, read_meta-write_meta,
}

module _ (j : Json) where
  -- The encoded messages fit the scanner's buffer.
  abbrev pub all_fit : List Message → Bool
  all_fit msgs = all (fits max_line_size) (map j.encode_message msgs)

module _ ⦃u : Unicode⦄ (j : Json) (key : Text) where
  open j use {encode_message}

  -- The files of the key hold these messages and this metadata, and they stand for the conversation.
  pub record Represents (d : Disk) (c : Conversation) (msgs : List Message) (meta : SessionMeta)
      : Type 0 where
    whole : content_or_empty (d.messages (sanitize_key key)) ≡ unlines (map encode_message msgs)
    lines : file_lines j (d.messages (sanitize_key key)) ≡ ok (map encode_message msgs)
    fitting : all_fit j msgs ≡ true
    read : read_meta j key d ≡ ok meta
    keyed : is_keyed key meta ≡ true
    within : meta.skip ≤ length msgs
    history : map stored (drop meta.skip msgs) ≡ map stored c.history
    summary : meta.summary ≡ c.summary
    tools : meta.discovered_tools ≡ c.discovered_tools

  pub read_messages-represented :
      (d : Disk) (c : Conversation) (msgs : List Message) (meta : SessionMeta)
      → Represents d c msgs meta
      → read_messages j key meta.skip d ≡ ok (map stored (drop meta.skip msgs))
  unfolding read_messages
  read_messages-represented d c msgs meta r =
      let e : meta.skip - 0 ≡ meta.skip = omega arith in
      rw (read_messages, r.lines, decode_lines-encoded j meta.skip 0 msgs, e) refl

  get_history-represented :
      (d : Disk) (c : Conversation) (msgs : List Message) (meta : SessionMeta)
      → Represents d c msgs meta
      → get_history j key d ≡ ok (map stored c.history)
  unfolding get_history
  get_history-represented d c msgs meta r =
      rw (get_history, r.read, read_messages-represented d c msgs meta r, r.history) refl

  -- The metadata changes and the messages stay.
  meta-written :
      (d : Disk) (c c' : Conversation) (msgs : List Message) (meta meta' : SessionMeta)
      → Represents d c msgs meta
      → is_keyed key meta' ≡ true
      → meta'.skip ≤ length msgs
      → map stored (drop meta'.skip msgs) ≡ map stored c'.history
      → meta'.summary ≡ c'.summary
      → meta'.discovered_tools ≡ c'.discovered_tools
      → Represents (write_meta j key meta' d) c' msgs meta'
  unfolding write_meta
  meta-written d c c' msgs meta meta' r k w h s t = record {
    whole = r.whole;
    lines = r.lines;
    fitting = r.fitting;
    read = read_meta-write_meta j key meta' d k;
    keyed = k;
    within = w;
    history = h;
    summary = s;
    tools = t;
  }

  read_meta-put_messages :
      (content : Text) (d : Disk) → read_meta j key (put_messages key content d) ≡ read_meta j key d
  unfolding read_meta
  read_meta-put_messages content d = refl

  -- The file is rewritten after its metadata.
  messages-written :
      (d : Disk) (c : Conversation) (msgs : List Message) (meta : SessionMeta)
      → all_fit j msgs ≡ true
      → read_meta j key d ≡ ok meta
      → is_keyed key meta ≡ true
      → meta.skip ≤ length msgs
      → map stored (drop meta.skip msgs) ≡ map stored c.history
      → meta.summary ≡ c.summary
      → meta.discovered_tools ≡ c.discovered_tools
      → Represents (put_messages key (unlines (map encode_message msgs)) d) c msgs meta
  messages-written d c msgs meta f r k w h s t = record {
    whole = rw (==_self (sanitize_key key)) refl;
    lines =
        rw (==_self (sanitize_key key))
          (file_lines-unlines j (map encode_message msgs) (encoded-are_lines j msgs) f);
    fitting = f;
    read = read_meta-put_messages (unlines (map encode_message msgs)) d ∙ r;
    keyed = k;
    within = w;
    history = h;
    summary = s;
    tools = t;
  }

  -- What the readers return of files that stand for a conversation.
  pub record Reads (d : Disk) (c : Conversation) : Type 0 where
    pub history_read : get_history j key d ≡ ok (map stored c.history)
    pub summary_read : get_summary j key d ≡ ok c.summary
    pub tools_read : get_discovered_tools j key d ≡ ok c.discovered_tools

  -- Some messages and metadata of the files stand for the conversation.
  pub Stands : Disk → Conversation → Type 0
  Stands d c = (msgs : List Message) × (meta : SessionMeta) × Represents d c msgs meta

  pub Stands-Reads : (d : Disk) (c : Conversation) → Stands d c → Reads d c
  unfolding Stands get_summary get_discovered_tools
  Stands-Reads d c (msgs, meta, r) = record {
    history_read = get_history-represented d c msgs meta r;
    summary_read = rw (get_summary, r.read, r.summary) refl;
    tools_read = rw (get_discovered_tools, r.read, r.tools) refl;
  }

  -- Files that are not there stand for no conversation.
  pub fresh-Stands :
      (d : Disk)
      → d.messages (sanitize_key key) ≡ none
      → d.metas (sanitize_key key) ≡ none
      → Stands d no_conversation
  unfolding Stands read_meta file_lines
  fresh-Stands d m n = (
    [],
    new_meta key,
    record {
      whole = rw m refl;
      lines = rw m refl;
      fitting = refl;
      read = rw (read_meta, n) refl;
      keyed = ground (arith, ==_self key);
      within = omega arith;
      history = refl;
      summary = refl;
      tools = refl;
    },
  )
