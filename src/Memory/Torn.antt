-- ===== src/Memory/Torn.antt =====
-- The lines of a file of pkg/memory/jsonl.go whose last line is not complete.
use suprclaw_engine.Prelude.{
  ℕ, zero, suc, ◌+◌, ◌≤◌, ◌≡◌, refl, ap, true, false, not, List, [], ◌∷◌, ◌++◌, some, if◌then◌else◌,
  nat_eq, list_eq, leb, is_nil, map, length, take, keep, all, any, arith,
}
use suprclaw_engine.Prelude.Scan.{is_line, unlines, split_lines, drop_cr}
use suprclaw_engine.Prelude.Scan.Laws.{fits, no_break, drop_cr_id, scan-unlines}
use suprclaw_engine.Prelude.Slices.{keep-append}
use suprclaw_engine.Prelude.Text.{Text, byte_length}
use suprclaw_engine.Prelude.Unicode.{Unicode}
use suprclaw_engine.Providers.Message.{Message}
use suprclaw_engine.Memory.Disk.{Json, ok, file_lines, decode_lines, max_line_size}
use suprclaw_engine.Memory.Lines.{keep_lines, encoded-are_lines}

-- A prefix of the bytes of a line.
pub take-no_break : (k : ℕ) (s : Text) → no_break s ≡ true → no_break (take k s) ≡ true
take-no_break zero s h = refl
take-no_break (suc k) [] h = refl
take-no_break (suc k) (c ∷ s) h = ground (arith, take-no_break k s)

pub take-byte_length : (k : ℕ) (s : Text) → byte_length (take k s) ≤ byte_length s
unfolding byte_length
take-byte_length zero s = omega arith
take-byte_length (suc k) [] = omega arith
take-byte_length (suc k) (c ∷ s) = ground (arith, take-byte_length k s)

-- What a scanner makes of a text without a break.
abbrev pub piece : Text → List Text
piece s = if is_nil s then [] else s ∷ []

split_lines-piece : (s : Text) → no_break s ≡ true → split_lines s ≡ piece s
unfolding split_lines nat_eq
split_lines-piece [] h = refl
split_lines-piece (c ∷ s) h = ground (arith, split_lines-piece s)

piece-fits :
    (s : Text)
    → fits max_line_size s ≡ true
    → any (λ line. leb max_line_size (byte_length line)) (piece s) ≡ false
piece-fits s h = ground arith

piece_cr : (s : Text) → no_break s ≡ true → map drop_cr (piece s) ≡ piece s
piece_cr s h = ground (arith, drop_cr_id s)

keep-piece : (s : Text) → keep (λ line. not (is_nil line)) (piece s) ≡ piece s
unfolding keep
keep-piece [] = refl
keep-piece (c ∷ s) = refl

pub length-piece : (s : Text) → length (piece s) ≤ 1
length-piece s = ground arith

pub joined_line : (s t : Text) → no_break s ≡ true → is_line t ≡ true → is_line (s ++ t) ≡ true
joined_line [] t h l = l
joined_line (c ∷ s) t h l = ground (arith, joined_line s t)

module _ ⦃u : Unicode⦄ (j : Json) where
  open j use {encode_message, decode_message}

  pub decode_lines-append :
      (skip n : ℕ) (xs ys : List Text)
      → decode_lines j skip n (xs ++ ys)
        ≡ decode_lines j skip n xs ++ decode_lines j skip (n + length xs) ys
  unfolding decode_lines
  decode_lines-append skip n [] ys = ap (λ k. decode_lines j skip k ys) (omega arith)
  decode_lines-append skip n (x ∷ xs) ys =
      let e : n + length (x ∷ xs) ≡ n + 1 + length xs = omega arith in
      rw e (ground (arith, decode_lines-append skip (n + 1) xs ys))

  pub decode_lines_short :
      (skip n : ℕ) (xs : List Text) → length (decode_lines j skip n xs) ≤ length xs
  unfolding decode_lines
  decode_lines_short skip n [] = omega arith
  decode_lines_short skip n (x ∷ xs) = ground (arith, decode_lines_short skip (n + 1) xs)

  pub line-no_break : (msg : Message) → no_break (encode_message msg) ≡ true
  line-no_break msg = ground (arith, j.encode_message-is_line msg)

  -- The lines of a file with a torn line behind its messages.
  pub torn_lines :
      (msgs : List Message) (torn : Text)
      → all (fits max_line_size) (map encode_message msgs) ≡ true
      → no_break torn ≡ true
      → fits max_line_size torn ≡ true
      → file_lines j (some (unlines (map encode_message msgs) ++ torn))
        ≡ ok (map encode_message msgs ++ piece torn)
  unfolding file_lines
  torn_lines msgs torn f b t =
      let lines = map encode_message msgs in
      let pieces = piece torn in
      let split = split_lines-piece torn b in
      let short : any (λ line. leb max_line_size (byte_length line)) (split_lines torn) ≡ false =
        rw split (piece-fits torn t) in
      let whole = scan-unlines max_line_size lines torn (encoded-are_lines j msgs) f short in
      rw
        (
          file_lines,
          whole,
          split,
          piece_cr torn b,
          keep-append (λ line. not (is_nil line)) lines pieces,
          keep_lines lines (encoded-are_lines j msgs),
          keep-piece torn,
        )
        refl
