-- ===== src/Prelude/Scan.antt =====
-- `bufio.Scanner` with `ScanLines`, and files whose lines all end in a newline.
pub mod Laws
use Prim.Native.Nat.{ℕ}
use mathlib.Core.Bool.{Bool, true, false, ◌&&◌, ◌||◌, not}
use mathlib.Core.List.{List, [], ◌∷◌, ◌++◌, map}
use mathlib.Core.Option.{Option, none, some}
use suprclaw_engine.Prelude.Tests.{if◌then◌else◌, leb, ◌==◌, nat_eq}
use suprclaw_engine.Prelude.Lists.{is_nil, any}
use suprclaw_engine.Prelude.Text.{Text, byte_length}
use suprclaw_engine.Prelude.Text.Laws.{none_is}

abbrev pub newline : ℕ
newline = 10

abbrev pub carriage_return : ℕ
carriage_return = 13

-- A line without the carriage return at its end.
unfoldable pub drop_cr : Text → Text
drop_cr [] = []
drop_cr (c ∷ s) = let rest = drop_cr s in if c == carriage_return && is_nil s then [] else c ∷ rest

-- The text up to the first newline, and what is behind it, if there is one.
unfoldable pub split_lines : Text → List Text
split_lines [] = []
split_lines (c ∷ s) =
    let rest = split_lines s in
    if c == newline
    then [] ∷ rest
    else elim rest [ [] ↦ (c ∷ []) ∷ [] | line ∷ lines ↦ (c ∷ line) ∷ lines ]

-- All lines, or `none` if the scanner meets a line that does not fit its buffer.
unfoldable pub scan : ℕ → Text → Option (List Text)
scan size content =
    let lines = split_lines content in
    if any (λ line. leb size (byte_length line)) lines then none else some (map drop_cr lines)

-- A text that is written as one line: not empty, with no newline and no carriage return.
abbrev pub is_line : Text → Bool
is_line s = not (is_nil s) && none_is (λ c. c == newline || c == carriage_return) s

-- The lines of a file that is written line by line.
abbrev pub unlines : List Text → Text
unlines [] = []
unlines (line ∷ lines) = line ++ (newline ∷ unlines lines)
