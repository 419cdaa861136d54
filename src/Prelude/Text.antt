-- ===== src/Prelude/Text.antt =====
-- Go strings as lists of code points, and what the program uses of package `strings`.
pub mod Laws
use Prim.Native.Char.{code}
use Prim.Native.String.{String}
use Prim.Native.Nat.{ℕ, zero, suc, ◌+◌, ◌-◌, ◌≤◌, ◌<◌}
use mathlib.Core.Path.{◌≡◌, refl, ap}
use mathlib.Core.Logic.{◌⊎◌, inl, inr}
use mathlib.Core.Bool.{Bool, true, false, ◌&&◌, ◌||◌}
use mathlib.Core.List.{List, [], ◌∷◌, ◌++◌, map}
use mathlib.Core.Option.{Option, none, some}
use native.Mathlib.Omega.{arith}
use suprclaw_engine.Prelude.Tests.{if◌then◌else◌, ltb, ◌==◌, nat_eq}
use suprclaw_engine.Prelude.Lists.{length, is_nil, all}

abbrev pub Text : Type 0
Text = List ℕ

-- The code points of a literal. `String` has its own `[]` and `∷`.
abbrev pub codes : String → Text
codes String.[] = []
codes (String.◌∷◌ c s) = code c ∷ codes s

-- `strings.TrimLeftFunc`: the text without its leading code points that pass the test.
unfoldable pub trim_left : (ℕ → Bool) → Text → Text
trim_left p [] = []
trim_left p (c ∷ s) = let rest = trim_left p s in if p c then rest else c ∷ s

-- `strings.TrimRightFunc`.
unfoldable pub trim_right : (ℕ → Bool) → Text → Text
trim_right p [] = []
trim_right p (c ∷ s) = let rest = trim_right p s in if p c && is_nil rest then [] else c ∷ rest

-- `strings.HasPrefix(s, p)`.
unfoldable pub has_prefix : Text → Text → Bool
has_prefix s [] = true
has_prefix [] (p ∷ ps) = false
has_prefix (c ∷ s) (p ∷ ps) = c == p && has_prefix s ps

-- `strings.Contains(s, p)`.
unfoldable pub contains_text : Text → Text → Bool
contains_text [] p = is_nil p
contains_text (c ∷ s) p = has_prefix (c ∷ s) p || contains_text s p

-- `strings.Index` of a one-character text, with the parts before and after it.
unfoldable pub cut : ℕ → Text → Option (Text × Text)
cut d [] = none
cut d (c ∷ s) =
    let rest = cut d s in
    if c == d
    then some ([], s)
    else elim rest [ none ↦ none | some (before, after) ↦ some (c ∷ before, after) ]

-- `strings.Count(s, p)` of a text that is not empty: the number of hits from the left that do not
-- overlap. The number is how many characters belong to the last hit.
unfoldable pub count_text : Text → ℕ → Text → ℕ
count_text p skip [] = 0
count_text p (suc skip) (c ∷ s) = count_text p skip s
count_text p zero (c ∷ s) =
    let hit = has_prefix (c ∷ s) p in
    let rest = count_text p (if hit then length p - 1 else 0) s in if hit then suc rest else rest

-- The text without its first characters, if they are the given ones.
unfoldable pub strip_prefix : Text → Text → Option Text
strip_prefix [] s = some s
strip_prefix (p ∷ ps) [] = none
strip_prefix (p ∷ ps) (c ∷ s) = let rest = strip_prefix ps s in if c == p then rest else none

-- `strings.Index` with the parts before and after the first hit.
unfoldable pub cut_text : Text → Text → Option (Text × Text)
cut_text p [] = elim (strip_prefix p []) [ none ↦ none | some after ↦ some ([], after) ]
cut_text p (c ∷ s) =
    let rest = cut_text p s in
    elim (strip_prefix p (c ∷ s)) [
      | some after ↦ some ([], after)
      | none ↦ elim rest [ none ↦ none | some (before, after) ↦ some (c ∷ before, after) ]
    ]

-- `len` of a string: the number of its bytes in UTF-8.
unfoldable pub byte_length : Text → ℕ
byte_length [] = 0
byte_length (c ∷ s) =
    (if ltb c 128 then 1 else if ltb c 2048 then 2 else if ltb c 65536 then 3 else 4)
    + byte_length s
