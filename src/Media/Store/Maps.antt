-- ===== src/Media/Store/Maps.antt =====
-- The maps of pkg/media/store.go, read after a change.
use suprclaw_engine.Prelude.{
  ◌≡◌, refl, ◌||◌, ◌&&◌, not, List, [], ◌∷◌, none, some, if◌then◌else◌, ◌==◌, nat_eq, list_eq,
  contains, keep, arith,
}
use suprclaw_engine.Prelude.Text.{Text}
use suprclaw_engine.Media.Store.{Entries, lookup, remove, insert, add_to_set}

pub lookup-remove :
    {V : Type 0} (q k : Text) (es : Entries V)
    → lookup q (remove k es) ≡ (if q == k then none else lookup q es)
unfolding lookup remove
lookup-remove q k [] = ground arith
lookup-remove q k ((j, v) ∷ es) = ground (arith, lookup-remove q k es)

pub lookup-insert :
    {V : Type 0} (q k : Text) (v : V) (es : Entries V)
    → lookup q (insert k v es) ≡ (if q == k then some v else lookup q es)
unfolding lookup
lookup-insert q k v es = ground (arith, lookup-remove q k es)

pub contains-add_to_set :
    (ref : Text) (set : List Text) (r : Text)
    → contains (add_to_set ref set) r ≡ (r == ref || contains set r)
contains-add_to_set ref set r = ground arith

pub contains-drop :
    (ref : Text) (set : List Text) (r : Text)
    → contains (keep (λ r. not (r == ref)) set) r ≡ (contains set r && not (r == ref))
unfolding keep
contains-drop ref [] r = refl
contains-drop ref (a ∷ set) r = ground (arith, contains-drop ref set r)
