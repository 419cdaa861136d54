-- ===== src/Sessions/Manager/Tools.antt =====
-- `normalizeDiscoveredTools` of pkg/session/manager.go against sets of names.
use suprclaw_engine.Prelude.{
  ◌≡◌, refl, sym, ◌∙◌, Bool, true, ◌&&◌, ◌||◌, not, List, [], ◌∷◌, ◌==◌, nat_eq, list_eq, is_nil,
  contains, map, arith, Bool-cases, inl, inr,
}
use suprclaw_engine.Prelude.Text.{Text}
use suprclaw_engine.Prelude.Distinct.{distinct, distinct-add, contains-add}
use suprclaw_engine.Prelude.Sort.{ascending}
use suprclaw_engine.Prelude.Sort.Laws.{contains-sort, sort-ascending}
use suprclaw_engine.Prelude.Unicode.{Unicode, trim_space}
use suprclaw_engine.Sessions.Manager.{
  ToolNames, add_tool_name, add_tool_names, normalize_discovered_tools,
}

module _ ⦃u : Unicode⦄ where
  -- `seen` holds the names of `out`, which has none twice.
  record IsUnique (names : ToolNames) : Type 0 where
    seen_out : (t : Text) → contains names.seen t ≡ contains names.out t
    unique : distinct names.out ≡ true

  -- The text is the trimmed name, and not empty.
  abbrev is_name : Text → Text → Bool
  is_name name t = t == trim_space name && not (is_nil t)

  add_tool_name-IsUnique :
      (name : Text) (names : ToolNames) → IsUnique names → IsUnique (add_tool_name name names)
  unfolding add_tool_name
  add_tool_name-IsUnique name names h =
      let trimmed = trim_space name in
      elim (Bool-cases (is_nil trimmed)) [
        | inl blank ↦ rw blank h
        | inr nonblank ↦ elim (Bool-cases (contains names.seen trimmed)) [
          | inl old ↦ rw (nonblank, old) h
          | inr fresh ↦
              rw (nonblank, fresh)
                (record {
                  seen_out = λ k. ground (arith, contains-add names.out trimmed k, h.seen_out k);
                  unique =
                      distinct-add names.out trimmed (sym (h.seen_out trimmed) ∙ fresh) h.unique;
                })
        ]
      ]

  contains-add_tool_name :
      (name : Text) (names : ToolNames) (t : Text)
      → IsUnique names
      → contains (add_tool_name name names).out t ≡ (contains names.out t || is_name name t)
  unfolding add_tool_name
  contains-add_tool_name name names t h =
      ground (arith, contains-add names.out (trim_space name) t, h.seen_out t)

  -- The names of the list, trimmed, without the empty one.
  abbrev is_named : List Text → Text → Bool
  is_named names t = contains (map trim_space names) t && not (is_nil t)

  add_tool_names-IsUnique :
      (more : List Text) (names : ToolNames) → IsUnique names → IsUnique (add_tool_names more names)
  unfolding add_tool_names
  add_tool_names-IsUnique [] names h = h
  add_tool_names-IsUnique (name ∷ more) names h =
      add_tool_names-IsUnique more (add_tool_name name names) (add_tool_name-IsUnique name names h)

  contains-add_tool_names :
      (more : List Text) (names : ToolNames) (t : Text)
      → IsUnique names
      → contains (add_tool_names more names).out t ≡ (contains names.out t || is_named more t)
  unfolding add_tool_names
  contains-add_tool_names [] names t h = ground arith
  contains-add_tool_names (name ∷ more) names t h =
      let rest =
        contains-add_tool_names more (add_tool_name name names) t
          (add_tool_name-IsUnique name names h) in
      rw (rest, contains-add_tool_name name names t h) (ground arith)

  -- The normalised names are in strictly ascending order, and they are the given names, trimmed, that
  -- are not blank: a text is among them exactly if it is not empty and some name becomes it when it is
  -- trimmed.
  pub normalize_discovered_tools_lem :
      (names : List Text) (t : Text)
      → (ascending (normalize_discovered_tools names) ≡ true)
        × (contains (normalize_discovered_tools names) t
            ≡ (contains (map trim_space names) t && not (is_nil t)))
  unfolding normalize_discovered_tools
  normalize_discovered_tools_lem [] t = (refl, refl)
  normalize_discovered_tools_lem (name ∷ more) t =
      let start : ToolNames = record { seen = []; out = [] } in
      let empty : IsUnique start = record { seen_out = λ k. refl; unique = refl } in
      let names = add_tool_names (name ∷ more) start in
      (
        sort-ascending names.out ((add_tool_names-IsUnique (name ∷ more) start empty).unique),
        contains-sort names.out t ∙ contains-add_tool_names (name ∷ more) start t empty,
      )
