-- ===== src/Memory/Store.antt =====
-- The operations of pkg/memory/jsonl.go. Each holds the lock of its session, so it is one step, and its
-- writes happen in the order of the code.
use suprclaw_engine.Prelude.{
  ℕ, ◌-◌, ◌+◌, List, [], ◌∷◌, ◌++◌, none, if◌then◌else◌, ◌==◌, ltb, nat_eq, list_eq, map, length,
}
use suprclaw_engine.Prelude.Int.{ℤ, pos, negsuc}
use suprclaw_engine.Prelude.Scan.{newline, unlines}
use suprclaw_engine.Prelude.Text.{Text}
use suprclaw_engine.Prelude.Unicode.{Unicode}
use suprclaw_engine.Providers.Message.{Message}
use suprclaw_engine.Sessions.Manager.{normalize_discovered_tools}
use suprclaw_engine.Memory.Disk.{
  SessionMeta, Json, Disk, Result, ok, err, sanitize_key, content_or_empty, put_messages,
  created_by, read_meta, write_meta, read_messages, count_lines,
}

-- The metadata after an append.
unfoldable pub count_message : ℕ → SessionMeta → SessionMeta
count_message now meta = record meta {
  created_at = if meta.count == 0 then created_by now meta else meta.created_at;
  count = meta.count + 1;
  updated_at = now;
}

-- The offset after a cut to `keep_last` of `count` lines.
unfoldable pub skip_to : ℤ → ℕ → ℕ → ℕ
skip_to (negsuc n) count skip = count
skip_to (pos n) count skip =
    if n == 0 then count else if ltb n (count - skip) then count - n else skip

module _ ⦃u : Unicode⦄ (j : Json) where
  open j use {encode_message}

  -- The append to the file, which is created if it is missing.
  unfoldable pub append_line : Text → Text → Disk → Disk
  append_line key line d =
      put_messages key (content_or_empty (d.messages (sanitize_key key)) ++ line) d

  -- A write returns the disk with an error, or without one.
  unfoldable pub add_msg : ℕ → Text → Message → Disk → Disk × Result (Unit {0})
  add_msg now key msg d =
      let d1 = append_line key (encode_message msg ++ (newline ∷ [])) d in
      elim (read_meta j key d1) [
        | err e ↦ (d1, err e)
        | ok meta ↦ (write_meta j key (count_message now meta) d1, ok tt)
      ]

  unfoldable pub add_message : ℕ → Text → Text → Text → Disk → Disk × Result (Unit {0})
  unfolding add_msg
  add_message now key role content d =
      add_msg now key
        (record {
          role = role;
          content = content;
          media = [];
          reasoning_content = [];
          usage = none;
          tool_calls = [];
          tool_call_id = [];
        })
        d

  unfoldable pub get_history : Text → Disk → Result (List Message)
  get_history key d = elim (read_meta j key d) [
    | err e ↦ err e
    | ok meta ↦ read_messages j key meta.skip d
  ]

  unfoldable pub get_summary : Text → Disk → Result Text
  get_summary key d = elim (read_meta j key d) [ err e ↦ err e | ok meta ↦ ok meta.summary ]

  unfoldable pub get_discovered_tools : Text → Disk → Result (List Text)
  get_discovered_tools key d = elim (read_meta j key d) [
    | err e ↦ err e
    | ok meta ↦ ok meta.discovered_tools
  ]

  unfoldable pub set_summary : ℕ → Text → Text → Disk → Disk × Result (Unit {0})
  set_summary now key summary d = elim (read_meta j key d) [
    | err e ↦ (d, err e)
    | ok meta ↦ (
      write_meta j key
          (record meta { created_at = created_by now meta; summary = summary; updated_at = now }) d,
      ok tt,
    )
  ]

  unfoldable pub set_discovered_tools : ℕ → Text → List Text → Disk → Disk × Result (Unit {0})
  set_discovered_tools now key names d = elim (read_meta j key d) [
    | err e ↦ (d, err e)
    | ok meta ↦ (
      write_meta j key
          (record meta {
            created_at = created_by now meta;
            discovered_tools = normalize_discovered_tools names;
            updated_at = now;
          })
          d,
      ok tt,
    )
  ]

  unfoldable pub truncate_history : ℕ → Text → ℤ → Disk → Disk × Result (Unit {0})
  truncate_history now key keep_last d = elim (read_meta j key d) [
    | err e ↦ (d, err e)
    | ok meta ↦ elim (count_lines j key d) [
      | err e ↦ (d, err e)
      | ok n ↦ (
        write_meta j key
            (record meta { count = n; skip = skip_to keep_last n meta.skip; updated_at = now }) d,
        ok tt,
      )
    ]
  ]

  unfoldable pub rewrite_jsonl : Text → List Message → Disk → Disk
  rewrite_jsonl key msgs d = put_messages key (unlines (map encode_message msgs)) d

  -- The disk after some writes, one behind the other.
  abbrev pub perform_writes : List (Disk → Disk) → Disk → Disk
  perform_writes [] d = d
  perform_writes (write ∷ writes) d = perform_writes writes (write d)

  -- The writes of `set_history`: the metadata, and then the file.
  abbrev pub set_history_writes : ℕ → Text → List Message → SessionMeta → List (Disk → Disk)
  set_history_writes now key history meta =
      write_meta j key (record meta {
        created_at = created_by now meta;
        skip = 0;
        count = length history;
        updated_at = now;
      })
      ∷ rewrite_jsonl key history
      ∷ []

  unfoldable pub set_history : ℕ → Text → List Message → Disk → Disk × Result (Unit {0})
  set_history now key history d = elim (read_meta j key d) [
    | err e ↦ (d, err e)
    | ok meta ↦ (perform_writes (set_history_writes now key history meta) d, ok tt)
  ]

  unfoldable pub compact : ℕ → Text → Disk → Disk × Result (Unit {0})
  compact now key d = elim (read_meta j key d) [
    | err e ↦ (d, err e)
    | ok meta ↦ if meta.skip == 0 then (d, ok tt) else elim (read_messages j key meta.skip d) [
      | err e ↦ (d, err e)
      | ok active ↦
          let d1 =
            write_meta j key (record meta { skip = 0; count = length active; updated_at = now })
              d in
          (rewrite_jsonl key active d1, ok tt)
    ]
  ]
