-- ===== src/Routing/AgentId/Laws.antt =====
-- What agent and account ids look like after normalisation.
use suprclaw_engine.Prelude.{
  ℕ, zero, suc, ◌≤◌, ◌≡◌, refl, Bool, true, false, not, [], ◌∷◌, ltb, nat_eq, length, take, is_nil,
  all, arith, inl, inr, Bool-cases, length-take_le,
}
use suprclaw_engine.Prelude.Text.{Text, trim_left, trim_right}
use suprclaw_engine.Prelude.Text.Laws.{
  head_is, head_is-trim_left, head_is-trim_right, all-trim_left, all-trim_right, all-take,
}
use suprclaw_engine.Prelude.Unicode.{Unicode, to_lower, trim_space}
use suprclaw_engine.Routing.AgentId.{
  is_alnum, is_dash, is_id_char, valid_id, replace_invalid, sanitize, normalize_id,
  normalize_agent_id, normalize_account_id, default_agent_id, default_account_id,
}

-- The shape that every normalised id has.
pub record IsSafe (s : Text) : Type 0 where
  pub nonempty : is_nil s ≡ false
  pub short : length s ≤ 64
  pub chars : all is_id_char s ≡ true
  pub no_leading_dash : head_is is_dash s ≡ false

alnum_id_char : (c : ℕ) → is_alnum c ≡ true → (is_id_char c ≡ true) × (is_dash c ≡ false)
unfolding is_id_char
alnum_id_char c h = ground arith

all-replace_invalid : (b : Bool) (s : Text) → all is_id_char (replace_invalid b s) ≡ true
unfolding replace_invalid
all-replace_invalid b [] = refl
all-replace_invalid b (c ∷ s) =
    let dash : is_id_char b'-' ≡ true = unfold is_id_char in refl in
    ground (arith, dash, all-replace_invalid (not (is_id_char c)) s)

head_is-take :
    (p : ℕ → Bool) (n : ℕ) (s : Text) → head_is p s ≡ false → head_is p (take n s) ≡ false
head_is-take p zero s h = refl
head_is-take p (suc n) [] h = refl
head_is-take p (suc n) (c ∷ s) h = h

abbrev stripped : Text → Text
stripped lower = trim_right is_dash (trim_left is_dash (replace_invalid false lower))

stripped_chars : (s : Text) → all is_id_char (stripped s) ≡ true
stripped_chars s =
    all-trim_right is_dash is_id_char _
      (all-trim_left is_dash is_id_char _ (all-replace_invalid false s))

stripped_head : (s : Text) → head_is is_dash (stripped s) ≡ false
stripped_head s = head_is-trim_right is_dash _ (head_is-trim_left is_dash (replace_invalid false s))

sanitize_chars : (s : Text) → all is_id_char (sanitize s) ≡ true
unfolding sanitize
sanitize_chars s = elim (Bool-cases (ltb 64 (length (stripped s)))) [
  | inl long ↦ rw long (all-take is_id_char 64 (stripped s) (stripped_chars s))
  | inr short ↦ rw short (stripped_chars s)
]

sanitize_head : (s : Text) → head_is is_dash (sanitize s) ≡ false
unfolding sanitize
sanitize_head s = elim (Bool-cases (ltb 64 (length (stripped s)))) [
  | inl long ↦ rw long (head_is-take is_dash 64 (stripped s) (stripped_head s))
  | inr short ↦ rw short (stripped_head s)
]

sanitize_short : (s : Text) → length (sanitize s) ≤ 64
unfolding sanitize
sanitize_short s = elim (Bool-cases (ltb 64 (length (stripped s)))) [
  | inl long ↦ rw long (length-take_le 64 (stripped s))
  | inr short ↦ rw short (ground arith)
]

pub valid_id-IsSafe : (s : Text) → valid_id s ≡ true → IsSafe s
unfolding valid_id
valid_id-IsSafe [] h = cc
valid_id-IsSafe (c ∷ s) h = ground (arith, alnum_id_char c)

module _ ⦃u : Unicode⦄ where
  normalize_id-IsSafe : (default id : Text) → IsSafe default → IsSafe (normalize_id default id)
  unfolding normalize_id
  normalize_id-IsSafe default id d = ground (
    arith,
    valid_id-IsSafe (to_lower (trim_space id)),
    sanitize_chars (to_lower (trim_space id)),
    sanitize_short (to_lower (trim_space id)),
    sanitize_head (to_lower (trim_space id)),
  )

  -- Every normalised agent id is a non-empty text of at most 64 characters of `[a-z0-9_-]`
  -- that does not begin with a dash, whatever the input.
  pub normalize_agent_id-IsSafe : (id : Text) → IsSafe (normalize_agent_id id)
  unfolding normalize_agent_id
  normalize_agent_id-IsSafe id = normalize_id-IsSafe default_agent_id id (record {
    nonempty = refl;
    short = omega arith;
    chars = unfold is_id_char in refl;
    no_leading_dash = unfold is_dash in refl;
  })

  -- The same of account ids.
  pub normalize_account_id-IsSafe : (id : Text) → IsSafe (normalize_account_id id)
  unfolding normalize_account_id
  normalize_account_id-IsSafe id = normalize_id-IsSafe default_account_id id (record {
    nonempty = refl;
    short = omega arith;
    chars = unfold is_id_char in refl;
    no_leading_dash = unfold is_dash in refl;
  })
