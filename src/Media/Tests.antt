-- ===== src/Media/Tests.antt =====
-- Runs of the media store, and its theorems at concrete data.
use suprclaw_engine.Prelude.{
  ◌≡◌, refl, true, [], ◌∷◌, none, some, if◌then◌else◌, nat_eq, list_eq, keep,
}
use suprclaw_engine.Prelude.Text.{Text, codes}
use suprclaw_engine.Media.Store.{
  MediaMeta, FileMediaStore, new_file_media_store, lookup, remove, store, resolve, release_refs,
  release_all, forget, clean_entries, clean_expired,
}
use suprclaw_engine.Media.Store.Laws.{IsConsistent, owns, store_lem, release_all_lem}

abbrev photo : MediaMeta
photo = record {
  filename = codes "a.png";
  content_type = codes "image/png";
  source = codes "telegram";
}

new-IsConsistent : IsConsistent new_file_media_store
unfolding lookup
new-IsConsistent = record { scoped = λ ref scope. refl; known = λ ref. refl }

-- Two files of one conversation and one of another.
abbrev one : FileMediaStore
one = (store true (codes "m1") (codes "/tmp/1") photo (codes "here") 10 new_file_media_store).0

abbrev two : FileMediaStore
two = (store true (codes "m2") (codes "/tmp/2") photo (codes "there") 20 one).0

abbrev three : FileMediaStore
three = (store true (codes "m3") (codes "/tmp/3") photo (codes "here") 30 two).0

one-IsConsistent : IsConsistent one
unfolding lookup
one-IsConsistent =
    (store_lem (codes "m1") (codes "/tmp/1") photo (codes "here") 10 new_file_media_store
      new-IsConsistent refl).0

two-IsConsistent : IsConsistent two
unfolding store lookup remove list_eq nat_eq
two-IsConsistent =
    (store_lem (codes "m2") (codes "/tmp/2") photo (codes "there") 20 one one-IsConsistent refl).0

release_all_lem_example :
    IsConsistent (release_all (codes "here") two).0
    × ((r : Text)
        → resolve r (release_all (codes "here") two).0
          ≡ (if owns (codes "here") (lookup r two.ref_to_scope) then none else resolve r two))
release_all_lem_example = release_all_lem (codes "here") two two-IsConsistent

-- The other file is left, and the files of the conversation are deleted.
release_all_runs :
    (resolve (codes "m2") (release_all (codes "here") three).0 ≡ some (codes "/tmp/2"))
    × ((release_all (codes "here") three).1 ≡ codes "/tmp/3" ∷ codes "/tmp/1" ∷ [])
unfolding store lookup remove release_all release_refs resolve list_eq nat_eq
release_all_runs = (refl, refl)

-- At time 40, with a maximum age of 15, the files go that were stored before time 25.
clean_expired_runs : (clean_expired 15 40 three).1 ≡ codes "/tmp/2" ∷ codes "/tmp/1" ∷ []
unfolding store lookup remove forget clean_entries clean_expired keep list_eq nat_eq
clean_expired_runs = refl
