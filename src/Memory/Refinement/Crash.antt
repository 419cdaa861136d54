-- ===== src/Memory/Refinement/Crash.antt =====
-- What a session of pkg/memory/jsonl.go reads after the process stopped in the middle of an append.
use suprclaw_engine.Prelude.{
  ℕ, ◌+◌, ◌-◌, ◌≤◌, ◌≡◌, refl, sym, ◌∙◌, ap, true, List, [], ◌∷◌, ◌++◌, none, some, nat_eq, list_eq,
  map, length, take, drop, all, arith, ==_self,
}
use mathlib.Core.List.{append_assoc, append-nil}
use suprclaw_engine.Prelude.Scan.{is_line, newline, unlines}
use suprclaw_engine.Prelude.Scan.Laws.{unlines-append, fits}
use suprclaw_engine.Prelude.Text.{Text}
use suprclaw_engine.Prelude.Unicode.{Unicode}
use suprclaw_engine.Providers.Message.{Message}
use suprclaw_engine.Sessions.Spec.{Conversation}
use suprclaw_engine.Memory.Disk.{
  SessionMeta, Json, Disk, ok, stored, read_messages, read_meta, write_meta, file_lines,
  decode_lines, sanitize_key, put_messages, max_line_size,
}
use suprclaw_engine.Memory.Store.{append_line, get_history, add_msg, count_message}
use suprclaw_engine.Memory.Torn.{
  take-no_break, take-byte_length, piece, length-piece, joined_line, decode_lines-append,
  decode_lines_short, line-no_break, torn_lines,
}
use suprclaw_engine.Memory.Lines.{
  file_lines-unlines, read_meta-write_meta, encoded-are_lines, decode_lines-encoded,
}
use suprclaw_engine.Memory.Refinement.Writes.{all-append}
use suprclaw_engine.Memory.Refinement.{Represents, Stands, read_meta-put_messages}

module _ ⦃u : Unicode⦄ (j : Json) where
  open j use {encode_message, decode_message}

  module _ (key : Text) where
    -- An append of which only the first bytes were written.
    unfoldable pub torn_append : ℕ → Message → Disk → Disk
    torn_append k msg d = append_line j key (take k (encode_message msg)) d

    -- The appended bytes, behind the whole lines.
    appended_bytes :
        (bytes : Text) (d : Disk) (c : Conversation) (msgs : List Message) (meta : SessionMeta)
        → Represents j key d c msgs meta
        → append_line j key bytes d
          ≡ put_messages key (unlines (map encode_message msgs) ++ bytes) d
    unfolding append_line
    appended_bytes bytes d c msgs meta r =
        ap (λ content. put_messages key (content ++ bytes) d) r.whole

    -- The history when the lines of the file are those of the messages and some more.
    more-read :
        (content : Text) (more : List Text) (d : Disk) (c : Conversation) (msgs : List Message)
        (meta : SessionMeta)
        → Represents j key d c msgs meta
        → file_lines j (some content) ≡ ok (map encode_message msgs ++ more)
        → read_messages j key meta.skip (put_messages key content d)
          ≡ ok (
              map stored c.history
              ++ decode_lines j meta.skip (0 + length (map encode_message msgs)) more)
    unfolding read_messages
    more-read content more d c msgs meta r lines =
        let e : meta.skip - 0 ≡ meta.skip = omega arith in
        rw
          (
            read_messages,
            ==_self (sanitize_key key),
            lines,
            decode_lines-append j meta.skip 0 (map encode_message msgs) more,
            decode_lines-encoded j meta.skip 0 msgs,
            e,
            r.history,
          )
          refl

    -- An append that stops before the newline: the history that was there is still read, followed by at
    -- most one message.
    pub torn_append-history :
        (k : ℕ) (msg : Message) (d : Disk) (c : Conversation)
        → fits max_line_size (encode_message msg) ≡ true
        → Stands j key d c
        → (more : List Message) × (get_history j key (torn_append k msg d)
            ≡ ok (map stored c.history ++ more))
          × (length more ≤ 1)
    unfolding Stands get_history torn_append
    torn_append-history k msg d c f (msgs, meta, r) =
        let torn = take k (encode_message msg) in
        let content = unlines (map encode_message msgs) ++ torn in
        let break_free = take-no_break k (encode_message msg) (line-no_break j msg) in
        let fit' : fits max_line_size torn ≡ true =
          ground (arith, take-byte_length k (encode_message msg)) in
        let more = decode_lines j meta.skip (0 + length (map encode_message msgs)) (piece torn) in
        (
          more,
          rw
              (
                get_history,
                appended_bytes torn d c msgs meta r,
                read_meta-put_messages j key content d,
                r.read,
                appended_bytes torn d c msgs meta r,
                more-read content (piece torn) d c msgs meta r
                    (torn_lines j msgs torn r.fitting break_free fit'),
              )
              refl,
          ground (
            arith,
            decode_lines_short j meta.skip (0 + length (map encode_message msgs)) (piece torn),
            length-piece torn,
          ),
        )

    -- The same for any disk with such a file and with metadata of the same offset.
    reads_more :
        (content : Text) (more : List Text) (d : Disk) (c : Conversation) (msgs : List Message)
        (meta : SessionMeta)
        → d.messages (sanitize_key key) ≡ some content
        → read_meta j key d ≡ ok meta
        → map stored (drop meta.skip msgs) ≡ map stored c.history
        → file_lines j (some content) ≡ ok (map encode_message msgs ++ more)
        → get_history j key d
          ≡ ok (
              map stored c.history
              ++ decode_lines j meta.skip (0 + length (map encode_message msgs)) more)
    unfolding read_messages get_history
    reads_more content more d c msgs meta file read history lines =
        let e : meta.skip - 0 ≡ meta.skip = omega arith in
        rw
          (
            get_history,
            read,
            read_messages,
            file,
            lines,
            decode_lines-append j meta.skip 0 (map encode_message msgs) more,
            decode_lines-encoded j meta.skip 0 msgs,
            e,
            history,
          )
          refl

    joined-is_line :
        (k : ℕ) (msg next : Message)
        → is_line (take k (encode_message msg) ++ encode_message next) ≡ true
    joined-is_line k msg next =
        joined_line (take k (encode_message msg)) (encode_message next)
          (take-no_break k (encode_message msg) (line-no_break j msg))
          (j.encode_message-is_line next)

    appended-read_meta :
        (bytes : Text) (d : Disk) → read_meta j key (append_line j key bytes d) ≡ read_meta j key d
    unfolding append_line
    appended-read_meta bytes d = read_meta-put_messages j key _ d

    torn_file :
        (k : ℕ) (msg next : Message) (d : Disk) (c : Conversation) (msgs : List Message)
        (meta : SessionMeta)
        → Represents j key d c msgs meta
        → (append_line j key (encode_message next ++ (newline ∷ [])) (torn_append k msg d)).messages
            (sanitize_key key)
          ≡ some (
              unlines (
                map encode_message msgs
                ++ ((take k (encode_message msg) ++ encode_message next) ∷ [])))
    unfolding append_line torn_append
    torn_file k msg next d c msgs meta r =
        let start = unlines (map encode_message msgs) in
        let torn = take k (encode_message msg) in
        let rest = encode_message next ++ (newline ∷ []) in
        rw
          (
            ==_self (sanitize_key key),
            r.whole,
            unlines-append (map encode_message msgs) ((torn ++ encode_message next) ∷ []),
          )
          (ap some (
            append_assoc start torn rest
            ∙ ap (λ l. start ++ l) (sym (append_assoc torn (encode_message next) (newline ∷ [])))))

    undecoded_line :
        (skip n : ℕ) (line : Text)
        → decode_message line ≡ none
        → decode_lines j skip n (line ∷ []) ≡ []
    unfolding decode_lines
    undecoded_line skip n line bad = ground arith

    -- After an append that stopped before the newline, the next message lands on the torn line. If that
    -- line does not decode, the message is lost although its append succeeds: the history is the one
    -- before both.
    pub add_msg-torn_append :
        (now k : ℕ) (msg next : Message) (d : Disk) (c : Conversation)
        → fits max_line_size (take k (encode_message msg) ++ encode_message next) ≡ true
        → decode_message (take k (encode_message msg) ++ encode_message next) ≡ none
        → Stands j key d c
        → let (after, result) = add_msg j now key next (torn_append k msg d) in
          (result ≡ ok tt) × (get_history j key after ≡ ok (map stored c.history))
    unfolding Stands add_msg count_message write_meta torn_append append_line
    add_msg-torn_append now k msg next d c f bad (msgs, meta, r) =
        let line = take k (encode_message msg) ++ encode_message next in
        let lines = map encode_message msgs ++ (line ∷ []) in
        let d1 = append_line j key (encode_message next ++ (newline ∷ [])) (torn_append k msg d) in
        let meta' = count_message now meta in
        let d2 = write_meta j key meta' d1 in
        let read1 : read_meta j key d1 ≡ ok meta =
          appended-read_meta _ (torn_append k msg d) ∙ appended-read_meta _ d ∙ r.read in
        let all_lines : all is_line lines ≡ true =
          rw
            (
              all-append is_line (map encode_message msgs) (line ∷ []),
              encoded-are_lines j msgs,
              joined-is_line k msg next,
            )
            refl in
        let all_fitting : all (fits max_line_size) lines ≡ true =
          rw (all-append (fits max_line_size) (map encode_message msgs) (line ∷ []), r.fitting, f)
            refl in
        let file : d2.messages (sanitize_key key) ≡ some (unlines lines) =
          torn_file k msg next d c msgs meta r in
        let lost : decode_lines j meta'.skip (0 + length (map encode_message msgs)) (line ∷ [])
            ≡ [] =
          undecoded_line meta'.skip _ line bad in
        (
          rw (add_msg, read1) refl,
          rw (add_msg, read1)
              (reads_more (unlines lines) (line ∷ []) d2 c msgs meta' file
                  (read_meta-write_meta j key meta' d1 r.keyed) r.history
                  (file_lines-unlines j lines all_lines all_fitting)
                ∙ ap ok
                    (ap (λ l. map stored c.history ++ l) lost ∙ append-nil (map stored c.history))),
        )
