-- ===== src/Prelude/Regexp.antt =====
-- The part of package `regexp` that the program uses: sequences of character classes, each once,
-- optional or repeated, word boundaries and one captured group. Matching is leftmost, and
-- repetitions are greedy.
use Prim.Native.Nat.{ℕ, ◌-◌}
use mathlib.Core.Bool.{Bool, true, false, ◌&&◌, ◌||◌, not, xor}
use mathlib.Core.List.{List, [], ◌∷◌, map}
use mathlib.Core.Option.{Option, none, some}
use suprclaw_engine.Prelude.Tests.{if◌then◌else◌, leb, ◌==◌, nat_eq}
use suprclaw_engine.Prelude.Text.{Text}

pub data Item : Type 0 where
  one many opt captured : (ℕ → Bool) → Item
  boundary : Item

abbrev pub is_digit : ℕ → Bool
is_digit c = leb b'0' c && leb c b'9'

-- `\s`.
abbrev pub is_space : ℕ → Bool
is_space c = leb 9 c && leb c 10 || leb 12 c && leb c 13 || leb 32 c && leb c 32

-- The characters of `\w`, between which and others `\b` matches.
abbrev pub is_word : ℕ → Bool
is_word c =
    leb b'a' c && leb c b'z' || leb b'A' c && leb c b'Z' || is_digit c || leb b'_' c && leb c b'_'

-- `.`.
abbrev pub is_any : ℕ → Bool
is_any c = not (leb 10 c && leb c 10)

-- A letter in lower case under `(?i)`: simple folding gives `s` and `k` one more partner each.
abbrev pub folds_to : ℕ → ℕ → Bool
folds_to l c =
    c == l
    || leb b'a' l && leb l b'z' && c == l - 32
    || l == b's' && c == 0x17F
    || l == b'k' && c == 0x212A

-- The pattern of a text without special characters under `(?i)`.
abbrev pub word : Text → List Item
word = map (λ l. one (folds_to l))

abbrev pub one_or_more : (ℕ → Bool) → List Item
one_or_more p = one p ∷ many p ∷ []

abbrev pub is_word_at : Option ℕ → Bool
is_word_at none = false
is_word_at (some c) = is_word c

abbrev pub head_of : Text → Option ℕ
head_of [] = none
head_of (c ∷ s) = some c

-- A match of the whole pattern at the front of the text, behind a character or at its beginning. The
-- result is the captured text.
unfoldable pub match_at : List Item → Option ℕ → Text → Option Text
unfolding xor
match_at [] prev s = some []
match_at (boundary ∷ items) prev s =
    let rest = match_at items prev s in
    if xor (is_word_at prev) (is_word_at (head_of s)) then rest else none
match_at (one p ∷ items) prev [] = none
match_at (one p ∷ items) prev (c ∷ s) =
    let rest = match_at items (some c) s in if p c then rest else none
match_at (captured p ∷ items) prev [] = none
match_at (captured p ∷ items) prev (c ∷ s) =
    let rest = match_at items (some c) s in
    if p c then elim rest [ none ↦ none | some group ↦ some (c ∷ group) ] else none
match_at (opt p ∷ items) prev [] = match_at items prev []
match_at (opt p ∷ items) prev (c ∷ s) =
    let skip = match_at items prev (c ∷ s) in
    let eat = match_at items (some c) s in
    if p c then elim eat [ none ↦ skip | some group ↦ some group ] else skip
match_at (many p ∷ items) prev [] = match_at items prev []
match_at (many p ∷ items) prev (c ∷ s) =
    let skip = match_at items prev (c ∷ s) in
    let eat = match_at (many p ∷ items) (some c) s in
    if p c then elim eat [ none ↦ skip | some group ↦ some group ] else skip

unfoldable pub find_from : List Item → Option ℕ → Text → Option Text
unfolding match_at
find_from items prev [] = match_at items prev []
find_from items prev (c ∷ s) =
    let later = find_from items (some c) s in
    elim (match_at items prev (c ∷ s)) [ none ↦ later | some group ↦ some group ]

-- `FindStringSubmatch(s)[1]`.
unfoldable pub find_submatch : List Item → Text → Option Text
unfolding find_from
find_submatch items s = find_from items none s

-- `MatchString(s)`.
unfoldable pub match_string : List Item → Text → Bool
unfolding find_from
match_string items s = elim (find_from items none s) [ none ↦ false | some group ↦ true ]
