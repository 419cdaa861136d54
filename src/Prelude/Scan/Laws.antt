-- ===== src/Prelude/Scan/Laws.antt =====
-- Scanning what was written line by line.
use Prim.Native.Nat.{ℕ}
use mathlib.Core.Path.{◌≡◌, refl, sym, ◌∙◌, ap}
use mathlib.Core.Bool.{Bool, true, false, ◌||◌}
use mathlib.Core.List.{List, [], ◌∷◌, ◌++◌, map, append_assoc, map-append}
use mathlib.Core.Option.{some}
use native.Mathlib.Omega.{arith}
use suprclaw_engine.Prelude.Tests.{leb, ltb, ◌==◌, nat_eq}
use suprclaw_engine.Prelude.Lists.{any, all}
use suprclaw_engine.Prelude.Text.{Text, byte_length}
use suprclaw_engine.Prelude.Text.Laws.{none_is}
use suprclaw_engine.Prelude.Scan.{
  newline, carriage_return, drop_cr, split_lines, scan, is_line, unlines,
}

abbrev pub no_break : Text → Bool
no_break s = none_is (λ c. c == newline || c == carriage_return) s

split_lines-line :
    (line rest : Text)
    → no_break line ≡ true
    → split_lines (line ++ (newline ∷ rest)) ≡ line ∷ split_lines rest
unfolding split_lines nat_eq
split_lines-line [] rest h = refl
split_lines-line (c ∷ line) rest h = ground (arith, split_lines-line line rest)

pub drop_cr_id : (s : Text) → no_break s ≡ true → drop_cr s ≡ s
unfolding drop_cr
drop_cr_id [] h = refl
drop_cr_id (c ∷ s) h = ground (arith, drop_cr_id s)

split_lines-unlines :
    (lines : List Text) (rest : Text)
    → all is_line lines ≡ true
    → split_lines (unlines lines ++ rest) ≡ lines ++ split_lines rest
split_lines-unlines [] rest h = refl
split_lines-unlines (line ∷ lines) rest h = rw (append_assoc line (newline ∷ unlines lines) rest) (
    split_lines-line line (unlines lines ++ rest) (ground arith)
    ∙ ap (λ ls. line ∷ ls) (split_lines-unlines lines rest (ground arith)))

map-drop_cr : (lines : List Text) → all is_line lines ≡ true → map drop_cr lines ≡ lines
map-drop_cr [] h = refl
map-drop_cr (line ∷ lines) h = ground (arith, drop_cr_id line, map-drop_cr lines)

any-append :
    {A : Type 0} (p : A → Bool) (xs ys : List A) → any p (xs ++ ys) ≡ (any p xs || any p ys)
any-append p [] ys = refl
any-append p (x ∷ xs) ys = ground (arith, any-append p xs ys)

-- Short enough for the buffer.
abbrev pub fits : ℕ → Text → Bool
fits size line = ltb (byte_length line) size

any_long :
    (size : ℕ) (lines : List Text)
    → all (fits size) lines ≡ true
    → any (λ line. leb size (byte_length line)) lines ≡ false
any_long size [] h = refl
any_long size (line ∷ lines) h = ground (arith, any_long size lines)

-- Complete lines that fit, and one more piece of text that is no line yet.
pub scan-unlines :
    (size : ℕ) (lines : List Text) (torn : Text)
    → all is_line lines ≡ true
    → all (fits size) lines ≡ true
    → any (λ line. leb size (byte_length line)) (split_lines torn) ≡ false
    → scan size (unlines lines ++ torn) ≡ some (lines ++ map drop_cr (split_lines torn))
unfolding scan
scan-unlines size lines torn h f t =
    rw
      (
        split_lines-unlines lines torn h,
        any-append (λ line. leb size (byte_length line)) lines (split_lines torn),
        any_long size lines f,
        t,
        map-append drop_cr lines (split_lines torn),
        map-drop_cr lines h,
      )
      refl

pub unlines-append : (xs ys : List Text) → unlines (xs ++ ys) ≡ unlines xs ++ unlines ys
unlines-append [] ys = refl
unlines-append (x ∷ xs) ys =
    rw (unlines-append xs ys) (sym (append_assoc x (newline ∷ unlines xs) (unlines ys)))
