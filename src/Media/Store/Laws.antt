-- ===== src/Media/Store/Laws.antt =====
-- What the operations of pkg/media/store.go do to the files that are known.
use suprclaw_engine.Prelude.{
  ℕ, ◌-◌, ◌<◌, ◌≡◌, refl, Bool, true, false, ◌||◌, ◌&&◌, not, List, [], ◌∷◌, Option, none, some,
  map, if◌then◌else◌, ltb, ◌==◌, nat_eq, list_eq, is_nil, contains, keep, arith, Bool-cases,
  Option-cases, inl, inr,
}
use mathlib.Core.Bool.{false≢true}
use suprclaw_engine.Prelude.Distinct.{distinct}
use suprclaw_engine.Prelude.Text.{Text}
use suprclaw_engine.Media.Store.{
  Entries, lookup, remove, add_to_set, refs_of, MediaMeta, MediaEntry, FileMediaStore, store,
  resolve, release_refs, release_all, leave_scope, forget, clean_entries, clean_expired,
}
use suprclaw_engine.Media.Store.Maps.{
  lookup-remove, lookup-insert, contains-add_to_set, contains-drop,
}

abbrev pub is_some : {V : Type 0} → Option V → Bool
is_some none = false
is_some (some v) = true

abbrev pub owns : Text → Option Text → Bool
owns scope none = false
owns scope (some owner) = owner == scope

-- The three maps agree: a reference stands in the set of a scope exactly if it belongs to the
-- scope, and it belongs to a scope exactly if it has an entry.
pub record IsConsistent (s : FileMediaStore) : Type 0 where
  pub scoped :
      (ref scope : Text)
      → contains (refs_of (lookup scope s.scope_to_refs)) ref
        ≡ owns scope (lookup ref s.ref_to_scope)
  pub known : (ref : Text) → is_some (lookup ref s.refs) ≡ is_some (lookup ref s.ref_to_scope)

-- A file that is stored under a reference that was not used is found under it, other references are
-- found as before, and the maps of the store agree again.
pub store_lem :
    (ref local_path : Text) (meta : MediaMeta) (scope : Text) (now : ℕ) (s : FileMediaStore)
    → IsConsistent s
    → lookup ref s.ref_to_scope ≡ none
    → IsConsistent (store true ref local_path meta scope now s).0
      × ((r : Text)
          → resolve r (store true ref local_path meta scope now s).0
            ≡ (if r == ref then some local_path else resolve r s))
unfolding store resolve
store_lem ref local_path meta scope now s c fresh =
    let entry : MediaEntry = record { path = local_path; meta = meta; stored_at = now } in
    let set : List Text = add_to_set ref (refs_of (lookup scope s.scope_to_refs)) in
    (
      record {
        scoped = λ r sc. ground (
          arith,
          lookup-insert sc scope set s.scope_to_refs,
          lookup-insert r ref scope s.ref_to_scope,
          contains-add_to_set ref (refs_of (lookup scope s.scope_to_refs)) r,
          c.scoped r sc,
          c.scoped ref sc,
          fresh,
        );
        known = λ r. ground (
          arith,
          lookup-insert r ref entry s.refs,
          lookup-insert r ref scope s.ref_to_scope,
          c.known r,
        );
      },
      λ r. ground (arith, lookup-insert r ref entry s.refs),
    )

release_refs-lookup :
    (set : List Text) (refs : Entries MediaEntry) (ref_to_scope : Entries Text) (r : Text)
    → (lookup r (release_refs set refs ref_to_scope).1
        ≡ (if contains set r then none else lookup r refs))
      × (lookup r (release_refs set refs ref_to_scope).2
          ≡ (if contains set r then none else lookup r ref_to_scope))
unfolding release_refs
release_refs-lookup [] refs ref_to_scope r = (refl, refl)
release_refs-lookup (ref ∷ set) refs ref_to_scope r =
    let (a, b) = release_refs-lookup set (remove ref refs) (remove ref ref_to_scope) r in
    (
      ground (arith, a, lookup-remove r ref refs),
      ground (arith, b, lookup-remove r ref ref_to_scope),
    )

release_all-IsConsistent :
    (scope : Text) (set : List Text) (s : FileMediaStore)
    → IsConsistent s
    → lookup scope s.scope_to_refs ≡ some set
    → IsConsistent (record {
      refs = (release_refs set s.refs s.ref_to_scope).1;
      scope_to_refs = remove scope s.scope_to_refs;
      ref_to_scope = (release_refs set s.refs s.ref_to_scope).2;
    })
release_all-IsConsistent scope set s c e = record {
  scoped = λ r sc.
      let (a, b) = release_refs-lookup set s.refs s.ref_to_scope r in
      ground (arith, b, lookup-remove sc scope s.scope_to_refs, c.scoped r sc, c.scoped r scope, e);
  known = λ r.
      let (a, b) = release_refs-lookup set s.refs s.ref_to_scope r in
      ground (arith, a, b, c.known r);
}

-- Releasing a scope makes exactly its own references unknown: every reference that belongs to it is
-- not found any more, every other one is found as before, and the maps of the store agree again.
pub release_all_lem :
    (scope : Text) (s : FileMediaStore)
    → IsConsistent s
    → IsConsistent (release_all scope s).0
      × ((r : Text)
          → resolve r (release_all scope s).0
            ≡ (if owns scope (lookup r s.ref_to_scope) then none else resolve r s))
unfolding release_all resolve
release_all_lem scope s c = elim (Option-cases (lookup scope s.scope_to_refs)) [
  | inl e ↦ rw (release_all, e) (c, λ r. ground (arith, c.scoped r scope, e))
  | inr (set, e) ↦
      rw (release_all, e)
        (
          release_all-IsConsistent scope set s c e,
          λ r.
              let (a, b) = release_refs-lookup set s.refs s.ref_to_scope r in
              ground (arith, a, c.scoped r scope, e),
        )
]

is_nil-contains : (set : List Text) (r : Text) → is_nil set ≡ true → contains set r ≡ false
is_nil-contains [] r h = refl
is_nil-contains (a ∷ set) r h = absurd (false≢true h)

contains-leave_scope :
    (ref r sc : Text) (owner : Option Text) (scopes : Entries (List Text))
    → contains (refs_of (lookup sc (leave_scope ref owner scopes))) r
      ≡ (contains (refs_of (lookup sc scopes)) r && not (r == ref && owns sc owner))
contains-leave_scope ref r sc none scopes = ground arith
contains-leave_scope ref r sc (some owner) scopes = elim (Option-cases (lookup owner scopes)) [
  | inl e ↦ rw e (ground (arith, e))
  | inr (set, e) ↦
      let left : List Text = keep (λ r. not (r == ref)) set in
      elim (Bool-cases (is_nil left)) [
        | inl gone ↦
            rw (e, gone)
              (ground (
                arith,
                e,
                lookup-remove sc owner scopes,
                contains-drop ref set r,
                is_nil-contains left r gone,
              ))
        | inr kept ↦
            rw (e, kept)
              (ground (arith, e, lookup-insert sc owner left scopes, contains-drop ref set r))
      ]
]

forget-IsConsistent :
    (ref : Text) (s : FileMediaStore) → IsConsistent s → IsConsistent (forget ref s)
unfolding forget
forget-IsConsistent ref s c = record {
  scoped = λ r sc. ground (
    arith,
    contains-leave_scope ref r sc (lookup ref s.ref_to_scope) s.scope_to_refs,
    lookup-remove r ref s.ref_to_scope,
    c.scoped r sc,
    c.scoped ref sc,
  );
  known = λ r.
      ground (arith, lookup-remove r ref s.refs, lookup-remove r ref s.ref_to_scope, c.known r);
}

-- An entry of the list has the reference and is expired.
abbrev drops : ℕ → Text → Entries MediaEntry → Bool
drops cutoff r [] = false
drops cutoff r ((ref, entry) ∷ es) = r == ref && ltb entry.stored_at cutoff || drops cutoff r es

clean_entries_lem :
    (cutoff : ℕ) (es : Entries MediaEntry) (s : FileMediaStore)
    → IsConsistent s
    → IsConsistent (clean_entries cutoff es s).0
      × ((r : Text)
          → lookup r (clean_entries cutoff es s).0.refs
            ≡ (if drops cutoff r es then none else lookup r s.refs))
unfolding clean_entries forget
clean_entries_lem cutoff [] s c = (c, λ r. refl)
clean_entries_lem cutoff ((ref, entry) ∷ es) s c = elim (Bool-cases (ltb entry.stored_at cutoff)) [
  | inl e ↦
      let (c', h) = clean_entries_lem cutoff es (forget ref s) (forget-IsConsistent ref s c) in
      rw e (c', λ r. ground (arith, h r, lookup-remove r ref s.refs))
  | inr e ↦ let (c', h) = clean_entries_lem cutoff es s c in rw e (c', λ r. ground (arith, h r))
]

-- The entry is expired.
abbrev pub is_expired : ℕ → Option MediaEntry → Bool
is_expired cutoff none = false
is_expired cutoff (some entry) = ltb entry.stored_at cutoff

abbrev pub keys : Entries MediaEntry → List Text
keys = map (λ e. e.0)

drops-absent :
    (cutoff : ℕ) (r : Text) (es : Entries MediaEntry)
    → contains (keys es) r ≡ false
    → drops cutoff r es ≡ false
drops-absent cutoff r [] h = refl
drops-absent cutoff r ((ref, entry) ∷ es) h = ground (arith, drops-absent cutoff r es)

drops-lookup :
    (cutoff : ℕ) (r : Text) (es : Entries MediaEntry)
    → distinct (keys es) ≡ true
    → drops cutoff r es ≡ is_expired cutoff (lookup r es)
unfolding lookup
drops-lookup cutoff r [] d = refl
drops-lookup cutoff r ((ref, entry) ∷ es) d =
    ground (arith, drops-absent cutoff r es, drops-lookup cutoff r es)

-- A clean-up with a maximum age makes exactly the references unknown whose files are older, every
-- other one is found as before, and the maps of the store agree again; each reference has one
-- entry.
pub clean_expired_lem :
    (max_age now : ℕ) (s : FileMediaStore)
    → IsConsistent s
    → distinct (keys s.refs) ≡ true
    → 0 < max_age
    → IsConsistent (clean_expired max_age now s).0
      × ((r : Text)
          → resolve r (clean_expired max_age now s).0
            ≡ (if is_expired (now - max_age) (lookup r s.refs) then none else resolve r s))
unfolding clean_expired resolve
clean_expired_lem max_age now s c d h =
    let (c', found) = clean_entries_lem (now - max_age) s.refs s c in
    let some_age : (max_age == 0) ≡ false = ground arith in
    rw (clean_expired, some_age)
      (c', λ r. ground (arith, found r, drops-lookup (now - max_age) r s.refs d))
