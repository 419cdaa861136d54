-- ===== src/Routing/AgentId/Stable.antt =====
-- Normalising an id that is already normalised.
use suprclaw_engine.Prelude.{
  ℕ, ◌≤◌, ◌≡◌, refl, ◌∙◌, true, false, [], ◌∷◌, if◌then◌else◌, nat_eq, length, is_nil, all, arith,
  inl, inr, Bool-cases,
}
use suprclaw_engine.Prelude.Text.{Text, trim_right}
use suprclaw_engine.Prelude.Text.Laws.{
  length-trim_right, head_is, trim_left_id, trim_right_idem, none_is,
}
use suprclaw_engine.Prelude.Unicode.{Unicode, to_lower, trim_space_id}
use suprclaw_engine.Routing.AgentId.{
  is_alnum, is_dash, is_id_char, valid_id, replace_invalid, sanitize, normalize_id,
  normalize_agent_id, default_agent_id,
}
use suprclaw_engine.Routing.AgentId.Laws.{IsSafe, normalize_agent_id-IsSafe, valid_id-IsSafe}

replace_invalid_id : (s : Text) → all is_id_char s ≡ true → replace_invalid false s ≡ s
unfolding replace_invalid
replace_invalid_id [] h = refl
replace_invalid_id (c ∷ s) h = ground (arith, replace_invalid_id s)

sanitize_of_IsSafe :
    (s : Text)
    → IsSafe s
    → length (trim_right is_dash s) ≤ length s
    → sanitize s ≡ trim_right is_dash s
unfolding sanitize
sanitize_of_IsSafe s h l =
    rw (replace_invalid_id s h.chars, trim_left_id is_dash s h.no_leading_dash) (ground arith)

trim_right-nonempty : (s : Text) → IsSafe s → is_nil (trim_right is_dash s) ≡ false
unfolding trim_right
trim_right-nonempty [] h = h.nonempty
trim_right-nonempty (c ∷ s) h = rw h.no_leading_dash

valid_id-eq : (s : Text) → IsSafe s → valid_id s ≡ head_is is_alnum s
unfolding valid_id
valid_id-eq [] h = refl
valid_id-eq (c ∷ s) h = ground arith

module _ ⦃u : Unicode⦄ where
  id_char_plain : (c : ℕ) → is_id_char c ≡ true → (u.lower c ≡ c) × (u.space c ≡ false)
  unfolding is_id_char
  id_char_plain c h = ground (arith, u.lower_ascii c, u.space_ascii c)

  pub to_lower_id : (s : Text) → all is_id_char s ≡ true → to_lower s ≡ s
  unfolding to_lower
  to_lower_id [] h = refl
  to_lower_id (c ∷ s) h = ground (arith, id_char_plain c, to_lower_id s)

  pub no_space : (s : Text) → all is_id_char s ≡ true → none_is u.space s ≡ true
  no_space [] h = refl
  no_space (c ∷ s) h = ground (arith, id_char_plain c, no_space s)

  normalize_id_of_IsSafe :
      (default s : Text)
      → IsSafe s
      → normalize_id default s ≡ (if valid_id s then s else trim_right is_dash s)
  unfolding normalize_id
  normalize_id_of_IsSafe default s h = rw (
    trim_space_id s (no_space s h.chars),
    to_lower_id s h.chars,
    h.nonempty,
    sanitize_of_IsSafe s h (length-trim_right is_dash s),
    trim_right-nonempty s h,
  )

  -- A valid id is returned as it stands.
  pub normalize_agent_id_of_valid : (s : Text) → valid_id s ≡ true → normalize_agent_id s ≡ s
  unfolding normalize_agent_id
  normalize_agent_id_of_valid s h =
      normalize_id_of_IsSafe default_agent_id s (valid_id-IsSafe s h) ∙ rw h

  again :
      (s : Text)
      → IsSafe s
      → normalize_agent_id s ≡ (if head_is is_alnum s then s else trim_right is_dash s)
  unfolding normalize_agent_id
  again s h = normalize_id_of_IsSafe default_agent_id s h ∙ rw (valid_id-eq s h)

  settled :
      (s : Text)
      → IsSafe s
      → IsSafe (normalize_agent_id s)
      → normalize_agent_id (normalize_agent_id s) ≡ normalize_agent_id s
  settled s h k = again (normalize_agent_id s) k ∙ elim (Bool-cases (head_is is_alnum s)) [
    | inl alnum ↦ rw (again s h, alnum) (ground arith)
    | inr other ↦ rw (again s h, other) (ground (arith, trim_right_idem is_dash s))
  ]

  -- A second normalisation keeps an id that begins with a letter or digit, and takes the trailing
  -- dashes off any other, which the cut at 64 characters may have left.
  pub normalize_agent_id_twice :
      (id : Text)
      → normalize_agent_id (normalize_agent_id id) ≡ (
          if head_is is_alnum (normalize_agent_id id)
          then normalize_agent_id id
          else trim_right is_dash (normalize_agent_id id))
  normalize_agent_id_twice id = again (normalize_agent_id id) (normalize_agent_id-IsSafe id)

  -- From the second normalisation on nothing changes.
  pub normalize_agent_id_thrice :
      (id : Text)
      → let twice = normalize_agent_id (normalize_agent_id id) in normalize_agent_id twice ≡ twice
  normalize_agent_id_thrice id =
      settled (normalize_agent_id id) (normalize_agent_id-IsSafe id)
        (normalize_agent_id-IsSafe (normalize_agent_id id))
