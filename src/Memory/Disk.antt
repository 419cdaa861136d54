-- ===== src/Memory/Disk.antt =====
-- The files of pkg/memory/jsonl.go: how they are named and read. A disk holds the content of the files by their
-- names; `encoding/json` is a parameter. Failures of the
-- operating system are left out.
use suprclaw_engine.Prelude.{
  ℕ, ◌+◌, ◌*◌, ◌≡◌, true, List, [], ◌∷◌, Option, none, some, if◌then◌else◌, ◌==◌, leb, nat_eq,
  list_eq, is_nil, map, length, keep, not,
}
use suprclaw_engine.Prelude.Scan.{scan, is_line}
use suprclaw_engine.Prelude.Text.{Text}
use suprclaw_engine.Prelude.Unicode.{Unicode, trim_space}
use suprclaw_engine.Providers.Message.{Message, ToolCall}

abbrev pub max_line_size : ℕ
max_line_size = 10 * 1024 * 1024

-- `Skip` and `Count` are counts of lines, so they are not negative; the zero time is 0.
pub record SessionMeta : Type 0 where
  pub key : Text
  pub summary : Text
  pub discovered_tools : List Text
  pub skip : ℕ
  pub count : ℕ
  pub created_at : ℕ
  pub updated_at : ℕ

-- What `json.Unmarshal` makes of a metadata file: the metadata, a syntax or type error, or another
-- error.
pub data Decoded : Type 0 where
  decoded : SessionMeta → Decoded
  corrupt : Decoded
  undecodable : Decoded

-- A message as it is read back: the field `Name` of a tool call has the tag `json:"-"`.
abbrev pub stored_call : ToolCall → ToolCall
stored_call tc = record tc { name = [] }

abbrev pub stored : Message → Message
stored msg = record msg { tool_calls = map stored_call msg.tool_calls }

-- `encoding/json` on messages and metadata: a message becomes one line, and what was written is read
-- back.
pub record Json : Type 0 where
  pub encode_message : Message → Text
  pub decode_message : Text → Option Message
  pub encode_meta : SessionMeta → Text
  pub decode_meta : Text → Decoded
  pub encode_message-is_line : (msg : Message) → is_line (encode_message msg) ≡ true
  pub encode_message-stored : (msg : Message) → encode_message (stored msg) ≡ encode_message msg
  pub decode-encode_message :
      (msg : Message) → decode_message (encode_message msg) ≡ some (stored msg)
  pub encode_meta_begins : (meta : SessionMeta) → (rest : Text) × (encode_meta meta ≡ b'{' ∷ rest)
  pub decode-encode_meta : (meta : SessionMeta) → decode_meta (encode_meta meta) ≡ decoded meta

-- The files `{name}.jsonl` and `{name}.meta.json`.
pub record Disk : Type 0 where
  pub messages : Text → Option Text
  pub metas : Text → Option Text

pub data StoreError : Type 0 where
  undecodable_meta : StoreError
  line_too_long : StoreError

pub data Result (A : Type 0) : Type 0 where
  ok : A → Result A
  err : StoreError → Result A

abbrev pub replace_char : ℕ → ℕ → Text → Text
replace_char old new = map (λ c. if c == old then new else c)

unfoldable pub sanitize_key : Text → Text
sanitize_key key = replace_char b'\\' b'_' (replace_char b'/' b'_' (replace_char b':' b'_' key))

abbrev pub new_meta : Text → SessionMeta
new_meta key = record {
  key = key;
  summary = [];
  discovered_tools = [];
  skip = 0;
  count = 0;
  created_at = 0;
  updated_at = 0;
}

-- The content of a file that is opened to append to it.
abbrev pub content_or_empty : Option Text → Text
content_or_empty none = []
content_or_empty (some content) = content

abbrev pub put_messages : Text → Text → Disk → Disk
put_messages key content d = record d {
  messages = λ name. if name == sanitize_key key then some content else d.messages name;
}

abbrev pub put_meta : Text → Text → Disk → Disk
put_meta key content d = record d {
  metas = λ name. if name == sanitize_key key then some content else d.metas name;
}

-- `if meta.CreatedAt.IsZero() { meta.CreatedAt = now }`.
abbrev pub created_by : ℕ → SessionMeta → ℕ
created_by now meta = if meta.created_at == 0 then now else meta.created_at

module _ ⦃u : Unicode⦄ (j : Json) where
  open j use {encode_message, decode_message, encode_meta, decode_meta}

  -- The metadata that is decoded, with its key filled in.
  unfoldable pub recover_meta : Text → Decoded → Result SessionMeta
  recover_meta key (decoded meta) =
      if is_nil (trim_space meta.key) then ok (record meta { key = key }) else ok meta
  recover_meta key corrupt = ok (new_meta key)
  recover_meta key undecodable = err undecodable_meta

  unfoldable pub read_meta : Text → Disk → Result SessionMeta
  unfolding recover_meta
  read_meta key d = elim (d.metas (sanitize_key key)) [
    | none ↦ ok (new_meta key)
    | some content ↦
        if is_nil (trim_space content)
        then ok (new_meta key)
        else recover_meta key (decode_meta content)
  ]

  unfoldable pub write_meta : Text → SessionMeta → Disk → Disk
  write_meta key meta d = put_meta key (encode_meta meta) d

  -- The loop over the lines that are not empty: the first `skip` are passed over, and those that do not
  -- decode are left out. `line_num` lines were read before.
  unfoldable pub decode_lines : ℕ → ℕ → List Text → List Message
  decode_lines skip line_num [] = []
  decode_lines skip line_num (line ∷ lines) =
      let rest = decode_lines skip (line_num + 1) lines in
      if leb (line_num + 1) skip
      then rest
      else elim (decode_message line) [ none ↦ rest | some msg ↦ msg ∷ rest ]

  -- The lines of the file that are not empty, or an error if one does not fit the buffer.
  unfoldable pub file_lines : Option Text → Result (List Text)
  file_lines none = ok []
  file_lines (some content) = elim (scan max_line_size content) [
    | none ↦ err line_too_long
    | some lines ↦ ok (keep (λ line. not (is_nil line)) lines)
  ]

  unfoldable pub read_messages : Text → ℕ → Disk → Result (List Message)
  read_messages key skip d = elim (file_lines (d.messages (sanitize_key key))) [
    | err e ↦ err e
    | ok lines ↦ ok (decode_lines skip 0 lines)
  ]

  unfoldable pub count_lines : Text → Disk → Result ℕ
  count_lines key d = elim (file_lines (d.messages (sanitize_key key))) [
    | err e ↦ err e
    | ok lines ↦ ok (length lines)
  ]
