-- ===== src/Identity.antt =====
-- pkg/identity/identity.go: canonical user ids and the entries of an allow list.
pub mod Canonical
pub mod Allowed
mod Tests
use suprclaw_engine.Prelude.{
  ℕ, Bool, true, false, ◌&&◌, ◌||◌, not, List, [], ◌∷◌, ◌++◌, Option, none, some, if◌then◌else◌,
  ◌==◌, leb, nat_eq, list_eq, is_nil, all, map,
}
use suprclaw_engine.Prelude.Text.{Text, cut}
use suprclaw_engine.Prelude.Unicode.{Unicode, to_lower, trim_space}

-- `SenderInfo` of pkg/bus/types.go.
pub record SenderInfo : Type 0 where
  pub platform : Text
  pub platform_id : Text
  pub canonical_id : Text
  pub username : Text
  pub display_name : Text

-- Only digits, and at least one.
unfoldable pub is_numeric : Text → Bool
is_numeric s = not (is_nil s) && all (λ c. leb b'0' c && leb c b'9') s

-- `strings.TrimPrefix(allowed, "@")`.
unfoldable pub trim_at : Text → Text
trim_at [] = []
trim_at (c ∷ s) = if c == b'@' then s else c ∷ s

-- `strings.HasPrefix(allowed, "@")`.
unfoldable pub begins_at : Text → Bool
begins_at [] = false
begins_at (c ∷ s) = c == b'@'

-- The parts of "id|username"; without a name the second one is empty.
unfoldable pub split_compound : Text → Text × Text
split_compound trimmed = elim (cut b'|' trimmed) [
  | none ↦ (trimmed, [])
  | some (id, user) ↦ if is_nil id then (trimmed, []) else (id, user)
]

-- The comparisons behind the canonical form.
unfoldable pub match_legacy : SenderInfo → Text → Bool
match_legacy sender allowed =
    let trimmed = trim_at allowed in
    let (allowed_id, allowed_user) = split_compound trimmed in
    let has_id = not (is_nil sender.platform_id) in
    let has_name = not (is_nil sender.username) in
    if has_id && sender.platform_id == allowed_id
    then true
    else if begins_at allowed && has_name && sender.username == trimmed
    then true
    else if not (is_nil allowed_user) && has_id && sender.platform_id == allowed_id
    then true
    else if not (is_nil allowed_user) && has_name && sender.username == allowed_user
    then true
    else false

module _ ⦃u : Unicode⦄ where
  unfoldable pub build_canonical_id : Text → Text → Text
  build_canonical_id platform platform_id =
      let p = to_lower (trim_space platform) in
      let id = trim_space platform_id in if is_nil p || is_nil id then [] else p ++ (b':' ∷ id)

  -- `none` is the result that is not ok.
  unfoldable pub parse_canonical_id : Text → Option (Text × Text)
  parse_canonical_id canonical = elim (cut b':' (trim_space canonical)) [
    | none ↦ none
    | some (platform, id) ↦ if is_nil platform || is_nil id then none else some (platform, id)
  ]

  -- `strings.EqualFold`.
  unfoldable pub equal_fold : Text → Text → Bool
  equal_fold s t = map u.fold s == map u.fold t

  -- The comparison with an entry in canonical form.
  unfoldable pub match_canonical : SenderInfo → Text → Text → Bool
  match_canonical sender platform id =
      let candidate = build_canonical_id platform id in
      if not (is_nil candidate) && not (is_nil sender.canonical_id)
      then equal_fold sender.canonical_id candidate
      else equal_fold platform sender.platform && sender.platform_id == id

  unfoldable pub match_allowed : SenderInfo → Text → Bool
  match_allowed sender entry =
      let allowed = trim_space entry in
      if is_nil allowed then false else elim (parse_canonical_id allowed) [
        | none ↦ match_legacy sender allowed
        | some (platform, id) ↦
            if not (is_numeric platform)
            then match_canonical sender platform id
            else match_legacy sender allowed
      ]
