-- ===== src/Media/Store.antt =====
-- pkg/media/store.go: FileMediaStore. A time is a number of nanoseconds; a reference is given by
-- the library of UUIDs. The file system is asked whether a file exists, and loses the files that
-- are returned.
pub mod Maps
pub mod Laws
use suprclaw_engine.Prelude.{
  ℕ, zero, suc, ◌+◌, ◌-◌, Bool, true, false, ◌&&◌, ◌||◌, not, List, [], ◌∷◌, ◌++◌, Option, none,
  some, map, if◌then◌else◌, ltb, leb, ◌==◌, nat_eq, list_eq, is_nil, length, keep, contains,
}
use suprclaw_engine.Prelude.Text.{Text, codes}

-- A Go map with its keys in the order of the list.
abbrev pub Entries : Type 0 → Type 0
Entries V = List (Text × V)

unfoldable pub lookup : {V : Type 0} → Text → Entries V → Option V
lookup k [] = none
lookup k ((j, v) ∷ es) = let rest = lookup k es in if k == j then some v else rest

unfoldable pub remove : {V : Type 0} → Text → Entries V → Entries V
remove k [] = []
remove k ((j, v) ∷ es) = let rest = remove k es in if k == j then rest else (j, v) ∷ rest

abbrev pub insert : {V : Type 0} → Text → V → Entries V → Entries V
insert k v es = (k, v) ∷ remove k es

pub record MediaMeta : Type 0 where
  pub filename : Text
  pub content_type : Text
  pub source : Text

pub record MediaEntry : Type 0 where
  pub path : Text
  pub meta : MediaMeta
  pub stored_at : ℕ

pub record FileMediaStore : Type 0 where
  pub refs : Entries MediaEntry
  pub scope_to_refs : Entries (List Text)
  pub ref_to_scope : Entries Text

abbrev pub new_file_media_store : FileMediaStore
new_file_media_store = record { refs = []; scope_to_refs = []; ref_to_scope = [] }

abbrev pub refs_of : Option (List Text) → List Text
refs_of none = []
refs_of (some set) = set

abbrev pub add_to_set : Text → List Text → List Text
add_to_set ref set = if contains set ref then set else ref ∷ set

-- The reference and the store; an error if there is no file at the path.
unfoldable pub store :
    Bool → Text → Text → MediaMeta → Text → ℕ → FileMediaStore → FileMediaStore × Option Text
store exists ref local_path meta scope now s =
    let entry : MediaEntry = record { path = local_path; meta = meta; stored_at = now } in
    if exists
    then (
      record {
        refs = insert ref entry s.refs;
        scope_to_refs =
            insert scope (add_to_set ref (refs_of (lookup scope s.scope_to_refs))) s.scope_to_refs;
        ref_to_scope = insert ref scope s.ref_to_scope;
      },
      some ref,
    )
    else (s, none)

abbrev pub path_of : Option MediaEntry → Option Text
path_of none = none
path_of (some entry) = some entry.path

unfoldable pub resolve : Text → FileMediaStore → Option Text
resolve ref s = path_of (lookup ref s.refs)

unfoldable pub resolve_with_meta : Text → FileMediaStore → Option (Text × MediaMeta)
resolve_with_meta ref s = elim (lookup ref s.refs) [
  | none ↦ none
  | some entry ↦ some (entry.path, entry.meta)
]

abbrev pub add_path : Option MediaEntry → List Text → List Text
add_path none paths = paths
add_path (some entry) paths = entry.path ∷ paths

-- The loop over the references of a scope: the paths, and the two maps without the references.
unfoldable pub release_refs :
    List Text → Entries MediaEntry → Entries Text → List Text × Entries MediaEntry × Entries Text
release_refs [] refs ref_to_scope = ([], refs, ref_to_scope)
release_refs (ref ∷ set) refs ref_to_scope =
    let (paths, refs', ref_to_scope') =
      release_refs set (remove ref refs) (remove ref ref_to_scope) in
    (add_path (lookup ref refs) paths, refs', ref_to_scope')

-- The store, and the files that are deleted afterwards.
unfoldable pub release_all : Text → FileMediaStore → FileMediaStore × List Text
release_all scope s = elim (lookup scope s.scope_to_refs) [
  | none ↦ (s, [])
  | some set ↦
      let (paths, refs, ref_to_scope) = release_refs set s.refs s.ref_to_scope in
      (
        record {
          refs = refs;
          scope_to_refs = remove scope s.scope_to_refs;
          ref_to_scope = ref_to_scope;
        },
        paths,
      )
]

-- `delete(scopeRefs, ref)`, and the scope is dropped with its last reference.
abbrev pub drop_ref : Text → Text → Option (List Text) → Entries (List Text) → Entries (List Text)
drop_ref scope ref none scopes = scopes
drop_ref scope ref (some set) scopes =
    let left = keep (λ r. not (r == ref)) set in
    if is_nil left then remove scope scopes else insert scope left scopes

abbrev pub leave_scope : Text → Option Text → Entries (List Text) → Entries (List Text)
leave_scope ref none scopes = scopes
leave_scope ref (some scope) scopes = drop_ref scope ref (lookup scope scopes) scopes

unfoldable pub forget : Text → FileMediaStore → FileMediaStore
forget ref s = record {
  refs = remove ref s.refs;
  scope_to_refs = leave_scope ref (lookup ref s.ref_to_scope) s.scope_to_refs;
  ref_to_scope = remove ref s.ref_to_scope;
}

-- The loop over the entries, with the files that are deleted afterwards.
unfoldable pub clean_entries : ℕ → Entries MediaEntry → FileMediaStore → FileMediaStore × List Text
clean_entries cutoff [] s = (s, [])
clean_entries cutoff ((ref, entry) ∷ es) s =
    let expired = ltb entry.stored_at cutoff in
    let (s', paths) = clean_entries cutoff es (if expired then forget ref s else s) in
    (s', if expired then entry.path ∷ paths else paths)

-- The number of expired entries is that of the files.
unfoldable pub clean_expired : ℕ → ℕ → FileMediaStore → FileMediaStore × List Text
clean_expired max_age now s =
    if max_age == 0 then (s, []) else clean_entries (now - max_age) s.refs s
