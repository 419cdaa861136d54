-- ===== src/Memory/Refinement/Writes.antt =====
-- Each writing operation of pkg/memory/jsonl.go against its effect on the conversation.
use suprclaw_engine.Prelude.{
  ℕ, zero, suc, ◌+◌, ◌-◌, ◌≤◌, ◌≡◌, refl, sym, ◌∙◌, ap, Bool, true, ◌&&◌, List, [], ◌∷◌, ◌++◌, ◌==◌,
  nat_eq, list_eq, map, length, length-append, drop, all, arith, Bool-cases, inl, inr,
}
use mathlib.Core.List.{map-append}
use suprclaw_engine.Prelude.Int.{ℤ, pos, negsuc}
use suprclaw_engine.Prelude.Scan.{newline, unlines}
use suprclaw_engine.Prelude.Scan.Laws.{fits, unlines-append}
use suprclaw_engine.Prelude.Slices.{drop-drop, length-drop}
use suprclaw_engine.Prelude.Text.{Text}
use suprclaw_engine.Prelude.Unicode.{Unicode}
use suprclaw_engine.Providers.Message.{Message}
use suprclaw_engine.Sessions.Spec.{Conversation, keep_last}
use suprclaw_engine.Sessions.Manager.{normalize_discovered_tools}
use suprclaw_engine.Memory.Disk.{
  Json, Disk, stored, write_meta, max_line_size, content_or_empty, created_by, sanitize_key,
  count_lines, put_messages,
}
use suprclaw_engine.Memory.Store.{
  add_msg, append_line, count_message, set_summary, set_discovered_tools, truncate_history, skip_to,
  set_history, rewrite_jsonl, compact,
}
use suprclaw_engine.Memory.Lines.{
  map-stored_idem, map-drop, length-map, encoded-stored, read_meta-write_meta,
}
use suprclaw_engine.Memory.Refinement.{
  Stands, all_fit, meta-written, messages-written, read_meta-put_messages,
  read_messages-represented,
}

drop-append :
    {A : Type 0} (n : ℕ) (xs ys : List A) → n ≤ length xs → drop n (xs ++ ys) ≡ drop n xs ++ ys
drop-append zero xs ys h = refl
drop-append (suc n) [] ys h = absurd (omega arith)
drop-append (suc n) (x ∷ xs) ys h = drop-append n xs ys (omega arith)

pub all-append :
    {A : Type 0} (p : A → Bool) (xs ys : List A) → all p (xs ++ ys) ≡ (all p xs && all p ys)
all-append p [] ys = refl
all-append p (x ∷ xs) ys = ground (arith, all-append p xs ys)

all-drop :
    {A : Type 0} (p : A → Bool) (n : ℕ) (xs : List A) → all p xs ≡ true → all p (drop n xs) ≡ true
all-drop p zero xs h = h
all-drop p (suc n) [] h = refl
all-drop p (suc n) (x ∷ xs) h = all-drop p n xs (ground arith)

drop_all : {A : Type 0} (xs : List A) → drop (length xs) xs ≡ []
drop_all [] = refl
drop_all (x ∷ xs) = drop_all xs

skip_to_lem :
    (keep : ℤ) (msgs : List Message) (skip : ℕ) (history : List Message)
    → skip ≤ length msgs
    → map stored (drop skip msgs) ≡ map stored history
    → (skip_to keep (length msgs) skip ≤ length msgs)
      × (map stored (drop (skip_to keep (length msgs) skip) msgs)
          ≡ map stored (keep_last keep history))
unfolding skip_to
skip_to_lem (negsuc n) msgs skip history w h = (omega arith, ap (map stored) (drop_all msgs))
skip_to_lem (pos n) msgs skip history w h =
    let same : length msgs - skip ≡ length history =
      sym (length-drop skip msgs)
      ∙ sym (length-map stored (drop skip msgs))
      ∙ ap length h
      ∙ length-map stored history in
    let gone = length history - n in
    let e : skip_to (pos n) (length msgs) skip ≡ skip + gone = ground arith in
    (
      ground arith,
      rw (e, sym (drop-drop gone skip msgs), map-drop stored gone (drop skip msgs), h)
          (sym (map-drop stored gone history)),
    )

module _ ⦃u : Unicode⦄ (j : Json) (key : Text) where
  open j use {encode_message}

  pub summarized-Stands :
      (now : ℕ) (summary : Text) (d : Disk) (c : Conversation)
      → Stands j key d c
      → Stands j key (set_summary j now key summary d).0 (record c { summary = summary })
  unfolding Stands set_summary
  summarized-Stands now summary d c (msgs, meta, r) =
      let meta' = record meta {
        created_at = created_by now meta;
        summary = summary;
        updated_at = now;
      } in
      rw (set_summary, r.read)
        (
          msgs,
          meta',
          meta-written j key d c (record c { summary = summary }) msgs meta meta' r r.keyed r.within
              r.history refl r.tools,
        )

  pub discovered-Stands :
      (now : ℕ) (names : List Text) (d : Disk) (c : Conversation)
      → Stands j key d c
      → Stands j key
          (set_discovered_tools j now key names d).0
          (record c { discovered_tools = normalize_discovered_tools names })
  unfolding Stands set_discovered_tools
  discovered-Stands now names d c (msgs, meta, r) =
      let tools = normalize_discovered_tools names in
      let meta' = record meta {
        created_at = created_by now meta;
        discovered_tools = tools;
        updated_at = now;
      } in
      rw (set_discovered_tools, r.read)
        (
          msgs,
          meta',
          meta-written j key d c (record c { discovered_tools = tools }) msgs meta meta' r r.keyed
              r.within r.history r.summary refl,
        )

  pub replaced-Stands :
      (now : ℕ) (history : List Message) (d : Disk) (c : Conversation)
      → all_fit j history ≡ true
      → Stands j key d c
      → Stands j key (set_history j now key history d).0 (record c { history = history })
  unfolding Stands set_history rewrite_jsonl
  replaced-Stands now history d c f (msgs, meta, r) =
      let meta' = record meta {
        created_at = created_by now meta;
        skip = 0;
        count = length history;
        updated_at = now;
      } in
      let d1 = write_meta j key meta' d in
      rw (set_history, r.read)
        (
          history,
          meta',
          messages-written j key d1 (record c { history = history }) history meta' f
              (read_meta-write_meta j key meta' d r.keyed) r.keyed (omega arith) refl r.summary
              r.tools,
        )

  appended_file :
      (d : Disk) (msgs : List Message) (msg : Message)
      → content_or_empty (d.messages (sanitize_key key)) ≡ unlines (map encode_message msgs)
      → append_line j key (encode_message msg ++ (newline ∷ [])) d
        ≡ put_messages key (unlines (map encode_message (msgs ++ (msg ∷ [])))) d
  unfolding append_line
  appended_file d msgs msg whole =
      ap (λ content. put_messages key content d)
        (rw
          (
            whole,
            map-append encode_message msgs (msg ∷ []),
            unlines-append (map encode_message msgs) (map encode_message (msg ∷ [])),
          )
          refl)

  pub appended-Stands :
      (now : ℕ) (msg : Message) (d : Disk) (c : Conversation)
      → fits max_line_size (encode_message msg) ≡ true
      → Stands j key d c
      → Stands j key (add_msg j now key msg d).0 (record c { history = c.history ++ (msg ∷ []) })
  unfolding Stands add_msg count_message
  appended-Stands now msg d c f (msgs, meta, r) =
      let msgs' = msgs ++ (msg ∷ []) in
      let c' = record c { history = c.history ++ (msg ∷ []) } in
      let meta' = count_message now meta in
      let d1 = put_messages key (unlines (map encode_message msgs')) d in
      let fit' : all_fit j msgs' ≡ true =
        rw
          (
            map-append encode_message msgs (msg ∷ []),
            all-append (fits max_line_size) (map encode_message msgs)
                (map encode_message (msg ∷ [])),
            r.fitting,
            f,
          )
          refl in
      let within' : meta.skip ≤ length msgs' =
        omega (arith, length-append msgs (msg ∷ []), r.within) in
      let history' : map stored (drop meta.skip msgs') ≡ map stored c'.history =
        rw
          (
            drop-append meta.skip msgs (msg ∷ []) r.within,
            map-append stored (drop meta.skip msgs) (msg ∷ []),
            r.history,
          )
          (sym (map-append stored c.history (msg ∷ []))) in
      let r1 =
        messages-written j key d c' msgs' meta fit' r.read r.keyed within' history' r.summary
          r.tools in
      rw
        (
          add_msg,
          appended_file d msgs msg r.whole,
          read_meta-put_messages j key (unlines (map encode_message msgs')) d,
          r.read,
          appended_file d msgs msg r.whole,
        )
        (
          msgs',
          meta',
          meta-written j key d1 c' c' msgs' meta meta' r1 r.keyed within' history' r.summary
              r.tools,
        )

  pub truncated-Stands :
      (now : ℕ) (keep : ℤ) (d : Disk) (c : Conversation)
      → Stands j key d c
      → Stands j key
          (truncate_history j now key keep d).0
          (record c { history = keep_last keep c.history })
  unfolding Stands truncate_history count_lines
  truncated-Stands now keep d c (msgs, meta, r) =
      let n = length msgs in
      let meta' = record meta { count = n; skip = skip_to keep n meta.skip; updated_at = now } in
      let (within', history') = skip_to_lem keep msgs meta.skip c.history r.within r.history in
      rw (truncate_history, r.read, count_lines, r.lines, length-map encode_message msgs)
        (
          msgs,
          meta',
          meta-written j key d c (record c { history = keep_last keep c.history }) msgs meta meta' r
              r.keyed within' history' r.summary r.tools,
        )

  pub compacted-Stands :
      (now : ℕ) (d : Disk) (c : Conversation)
      → Stands j key d c
      → Stands j key (compact j now key d).0 c
  unfolding Stands compact rewrite_jsonl
  compacted-Stands now d c (msgs, meta, r) = elim (Bool-cases (meta.skip == 0)) [
    | inl nothing ↦ rw (compact, r.read, nothing) (msgs, meta, r)
    | inr some_skipped ↦
        let active = map stored (drop meta.skip msgs) in
        let meta' = record meta { skip = 0; count = length active; updated_at = now } in
        let d1 = write_meta j key meta' d in
        let same =
          encoded-stored j (drop meta.skip msgs) ∙ map-drop encode_message meta.skip msgs in
        let fit' : all_fit j active ≡ true =
          rw same (all-drop (fits max_line_size) meta.skip (map encode_message msgs) r.fitting) in
        rw (compact, r.read, some_skipped, read_messages-represented j key d c msgs meta r)
          (
            active,
            meta',
            messages-written j key d1 c active meta' fit'
                (read_meta-write_meta j key meta' d r.keyed) r.keyed (omega arith)
                (map-stored_idem (drop meta.skip msgs) ∙ r.history) r.summary r.tools,
          )
  ]
