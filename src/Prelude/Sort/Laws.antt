-- ===== src/Prelude/Sort/Laws.antt =====
-- Laws of sorting.
use mathlib.Core.Path.{◌≡◌, refl}
use mathlib.Core.Bool.{true, false, ◌||◌}
use mathlib.Core.List.{List, [], ◌∷◌}
use native.Mathlib.Omega.{arith}
use suprclaw_engine.Prelude.Tests.{◌==◌, nat_eq, list_eq}
use suprclaw_engine.Prelude.Lists.{contains}
use suprclaw_engine.Prelude.Distinct.{distinct}
use suprclaw_engine.Prelude.Text.{Text}
use suprclaw_engine.Prelude.Sort.{text_lt, insert_text, sort_strings, ascending}

-- Of two texts that differ one is below the other.
text_lt_total : (a b : Text) → text_lt a b ≡ false → (a == b) ≡ false → text_lt b a ≡ true
unfolding text_lt
text_lt_total [] [] h n = ground arith
text_lt_total [] (d ∷ b) h n = ground arith
text_lt_total (c ∷ a) [] h n = refl
text_lt_total (c ∷ a) (d ∷ b) h n = ground (arith, text_lt_total a b)

contains-insert :
    (s : Text) (ts : List Text) (k : Text)
    → contains (insert_text s ts) k ≡ (k == s || contains ts k)
unfolding insert_text
contains-insert s [] k = refl
contains-insert s (t ∷ ts) k = ground (arith, contains-insert s ts k)

pub contains-sort : (ss : List Text) (k : Text) → contains (sort_strings ss) k ≡ contains ss k
unfolding sort_strings
contains-sort [] k = refl
contains-sort (s ∷ ss) k = rw (contains-insert s (sort_strings ss) k, contains-sort ss k) refl

insert-ascending :
    (s : Text) (ts : List Text)
    → contains ts s ≡ false
    → ascending ts ≡ true
    → ascending (insert_text s ts) ≡ true
unfolding insert_text
insert-ascending s [] h a = refl
insert-ascending s (t ∷ []) h a = ground (arith, text_lt_total s t)
insert-ascending s (t ∷ v ∷ ts) h a = ground (arith, text_lt_total s t, insert-ascending s (v ∷ ts))

pub sort-ascending : (ss : List Text) → distinct ss ≡ true → ascending (sort_strings ss) ≡ true
unfolding sort_strings
sort-ascending [] d = refl
sort-ascending (s ∷ ss) d =
    insert-ascending s (sort_strings ss) (rw (contains-sort ss s) (ground arith))
      (sort-ascending ss (ground arith))
