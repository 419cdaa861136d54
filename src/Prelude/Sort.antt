-- ===== src/Prelude/Sort.antt =====
-- Go's order on strings and `sort.Strings`. Bytes in UTF-8 are ordered as the code points are.
pub mod Laws
use Prim.Native.Nat.{ℕ}
use mathlib.Core.Bool.{Bool, true, false, ◌&&◌, ◌||◌}
use mathlib.Core.List.{List, [], ◌∷◌}
use suprclaw_engine.Prelude.Tests.{if◌then◌else◌, ltb, ◌==◌, nat_eq}
use suprclaw_engine.Prelude.Text.{Text}

-- `a < b` on strings.
unfoldable pub text_lt : Text → Text → Bool
text_lt a [] = false
text_lt [] (d ∷ b) = true
text_lt (c ∷ a) (d ∷ b) = ltb c d || c == d && text_lt a b

unfoldable pub insert_text : Text → List Text → List Text
insert_text s [] = s ∷ []
insert_text s (t ∷ ts) = let rest = insert_text s ts in if text_lt s t then s ∷ t ∷ ts else t ∷ rest

-- `sort.Strings`.
unfoldable pub sort_strings : List Text → List Text
sort_strings [] = []
sort_strings (s ∷ ss) = insert_text s (sort_strings ss)

-- Each text is below the next one.
abbrev pub ascending : List Text → Bool
ascending [] = true
ascending (s ∷ []) = true
ascending (s ∷ t ∷ ts) = text_lt s t && ascending (t ∷ ts)
