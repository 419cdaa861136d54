-- ===== src/Memory/Lines.antt =====
-- Reading the files of pkg/memory/jsonl.go that hold whole lines.
use suprclaw_engine.Prelude.{
  ℕ, zero, suc, ◌+◌, ◌-◌, ◌≡◌, refl, sym, ap, Bool, true, false, ◌||◌, not, List, [], ◌∷◌, some,
  ◌==◌, nat_eq, list_eq, leb, is_nil, map, length, drop, keep, all, arith, Bool-cases, inl, inr,
  ==_self,
}
use mathlib.Core.List.{append-nil}
use suprclaw_engine.Prelude.Scan.{is_line, unlines, split_lines}
use suprclaw_engine.Prelude.Scan.Laws.{fits, scan-unlines}
use suprclaw_engine.Prelude.Slices.{drop_nil}
use suprclaw_engine.Prelude.Text.{Text, trim_left, trim_right}
use suprclaw_engine.Prelude.Unicode.{Unicode, trim_space}
use suprclaw_engine.Providers.Message.{Message, ToolCall}
use suprclaw_engine.Memory.Disk.{
  SessionMeta, Json, Disk, ok, stored, stored_call, decoded, decode_lines, file_lines, read_meta,
  write_meta, recover_meta, max_line_size, sanitize_key,
}

pub calls_idem : (tcs : List ToolCall) → map stored_call (map stored_call tcs) ≡ map stored_call tcs
calls_idem [] = refl
calls_idem (tc ∷ tcs) = ap (λ l. stored_call tc ∷ l) (calls_idem tcs)

stored_idem : (msg : Message) → stored (stored msg) ≡ stored msg
stored_idem msg = ap (λ l. record msg { tool_calls = l }) (calls_idem msg.tool_calls)

pub map-stored_idem : (msgs : List Message) → map stored (map stored msgs) ≡ map stored msgs
map-stored_idem [] = refl
map-stored_idem (msg ∷ msgs) = cc (stored_idem msg, map-stored_idem msgs)

pub map-drop {ℓ} :
    {A B : Type ℓ} (f : A → B) (n : ℕ) (xs : List A) → map f (drop n xs) ≡ drop n (map f xs)
map-drop f zero xs = refl
map-drop f (suc n) [] = refl
map-drop f (suc n) (x ∷ xs) = map-drop f n xs

pub length-map {ℓ} : {A B : Type ℓ} (f : A → B) (xs : List A) → length (map f xs) ≡ length xs
length-map f [] = refl
length-map f (x ∷ xs) = ap suc (length-map f xs)

pub keep_lines :
    (lines : List Text) → all is_line lines ≡ true → keep (λ line. not (is_nil line)) lines ≡ lines
unfolding keep
keep_lines [] h = refl
keep_lines (line ∷ lines) h = ground (arith, keep_lines lines)

module _ ⦃u : Unicode⦄ where
  -- The key of the metadata is not filled in again.
  abbrev pub is_keyed : Text → SessionMeta → Bool
  is_keyed key meta = not (is_nil (trim_space meta.key)) || meta.key == key

module _ ⦃u : Unicode⦄ (j : Json) where
  open j use {encode_message, decode_message, encode_meta, decode_meta}

  pub encoded-are_lines : (msgs : List Message) → all is_line (map encode_message msgs) ≡ true
  encoded-are_lines [] = refl
  encoded-are_lines (msg ∷ msgs) =
      ground (arith, j.encode_message-is_line msg, encoded-are_lines msgs)

  pub encoded-stored :
      (msgs : List Message) → map encode_message (map stored msgs) ≡ map encode_message msgs
  encoded-stored [] = refl
  encoded-stored (msg ∷ msgs) = cc (j.encode_message-stored msg, encoded-stored msgs)

  -- A file that was written line by line has these lines.
  pub file_lines-unlines :
      (lines : List Text)
      → all is_line lines ≡ true
      → all (fits max_line_size) lines ≡ true
      → file_lines j (some (unlines lines)) ≡ ok lines
  unfolding file_lines split_lines
  file_lines-unlines lines l f =
      let whole = scan-unlines max_line_size lines [] l f refl in
      rw
        (file_lines, rw (append-nil (unlines lines), append-nil lines) at whole, keep_lines lines l)
        refl

  -- Decoding passes over the first lines.
  pub decode_lines-encoded :
      (skip n : ℕ) (msgs : List Message)
      → decode_lines j skip n (map encode_message msgs) ≡ map stored (drop (skip - n) msgs)
  unfolding decode_lines
  decode_lines-encoded skip n [] = ap (map stored) (sym (drop_nil (skip - n)))
  decode_lines-encoded skip n (msg ∷ msgs) =
      let ih = decode_lines-encoded skip (n + 1) msgs in
      elim (Bool-cases (leb (n + 1) skip)) [
        | inl passed ↦ let e : skip - n ≡ suc (skip - (n + 1)) = ground arith in rw (passed, e) ih
        | inr read ↦
            let e : skip - n ≡ 0 = ground arith in
            let e' : skip - (n + 1) ≡ 0 = ground arith in
            rw (read, e, j.decode-encode_message msg) (ap (λ l. stored msg ∷ l) (rw e' at ih))
      ]

  recover-decoded :
      (key : Text) (meta : SessionMeta)
      → is_keyed key meta ≡ true
      → recover_meta j key (decoded meta) ≡ ok meta
  unfolding recover_meta
  recover-decoded key meta h = ground arith

  encode_meta_filled : (meta : SessionMeta) → is_nil (trim_space (encode_meta meta)) ≡ false
  unfolding trim_space trim_left trim_right
  encode_meta_filled meta =
      let (rest, e) = j.encode_meta_begins meta in
      let brace : u.space b'{' ≡ false = u.space_ascii b'{' (omega arith) in
      rw e (ground (arith, brace))

  -- What was written is read back.
  pub read_meta-write_meta :
      (key : Text) (meta : SessionMeta) (d : Disk)
      → is_keyed key meta ≡ true
      → read_meta j key (write_meta j key meta d) ≡ ok meta
  unfolding read_meta write_meta
  read_meta-write_meta key meta d h = ground (
    arith,
    ==_self (sanitize_key key),
    encode_meta_filled meta,
    j.decode-encode_meta meta,
    recover-decoded key meta,
  )
