-- ===== src/Identity/Allowed.antt =====
-- Whom an entry of the allow list of pkg/identity/identity.go admits.
use suprclaw_engine.Prelude.{
  ℕ, ◌≡◌, refl, sym, ◌∙◌, true, false, ◌&&◌, ◌||◌, [], ◌∷◌, none, some, ◌==◌, nat_eq, list_eq,
  is_nil, arith, inl, inr, ==_self, map, Option-cases, ltb, leb, all,
}
use suprclaw_engine.Prelude.Text.{Text, cut}
use suprclaw_engine.Prelude.Unicode.{Unicode, to_lower, trim_space, trim_space_plain}
use suprclaw_engine.Identity.Canonical.{
  no_colon, build_canonical_id-build, build-filled, trim_space-build, parse-build_canonical_id,
}
use suprclaw_engine.Identity.{
  build_canonical_id, SenderInfo, is_numeric, trim_at, begins_at, split_compound, match_legacy,
  match_canonical, match_allowed, parse_canonical_id, equal_fold,
}

cut-digits :
    (d : ℕ) (s : Text)
    → all (λ c. leb b'0' c && leb c b'9') s ≡ true
    → (d == b':' || d == b'|') ≡ true
    → cut d s ≡ none
unfolding cut
cut-digits d [] h k = refl
cut-digits d (c ∷ s) h k = ground (arith, cut-digits d s)

digits_plain :
    (s : Text)
    → all (λ c. leb b'0' c && leb c b'9') s ≡ true
    → all (λ c. ltb 32 c && ltb c 128) s ≡ true
digits_plain [] h = refl
digits_plain (c ∷ s) h = ground (arith, digits_plain s)

digits_no_at :
    (s : Text)
    → all (λ c. leb b'0' c && leb c b'9') s ≡ true
    → (trim_at s ≡ s) × (begins_at s ≡ false)
unfolding trim_at begins_at
digits_no_at [] h = (refl, refl)
digits_no_at (c ∷ s) h = ground arith

split-digits :
    (s : Text) → all (λ c. leb b'0' c && leb c b'9') s ≡ true → split_compound s ≡ (s, [])
unfolding split_compound
split-digits s h = rw (split_compound, cut-digits b'|' s h (ground arith)) refl

module _ ⦃u : Unicode⦄ where
  parse-digits :
      (s : Text) → all (λ c. leb b'0' c && leb c b'9') s ≡ true → parse_canonical_id s ≡ none
  unfolding parse_canonical_id
  parse-digits s h =
      rw
        (
          parse_canonical_id,
          trim_space_plain s (digits_plain s h),
          cut-digits b':' s h (ground arith),
        )
        refl

  legacy-digits :
      (sender : SenderInfo) (s : Text)
      → all (λ c. leb b'0' c && leb c b'9') s ≡ true
      → is_nil s ≡ false
      → match_legacy sender s ≡ (sender.platform_id == s)
  unfolding match_legacy
  legacy-digits sender s h n =
      let (same, no_at) = digits_no_at s h in rw (same, split-digits s h, no_at) (ground arith)

  parse-nonblank :
      (s platform id : Text) → parse_canonical_id s ≡ some (platform, id) → is_nil id ≡ false
  unfolding parse_canonical_id
  parse-nonblank s platform id e = ground arith

  canonical-anonymous :
      (sender : SenderInfo) (platform id : Text)
      → is_nil sender.platform_id ≡ true
      → is_nil sender.canonical_id ≡ true
      → is_nil id ≡ false
      → match_canonical sender platform id ≡ false
  unfolding match_canonical
  canonical-anonymous sender platform id i c h = ground arith

  legacy-anonymous :
      (sender : SenderInfo) (allowed : Text)
      → is_nil sender.platform_id ≡ true
      → is_nil sender.username ≡ true
      → match_legacy sender allowed ≡ false
  unfolding match_legacy
  legacy-anonymous sender allowed i n = rw (i, n) (ground arith)

  -- An entry of digits admits exactly the senders with that platform id.
  match_allowed-numeric :
      (sender : SenderInfo) (entry : Text)
      → is_numeric entry ≡ true
      → match_allowed sender entry ≡ (sender.platform_id == entry)
  unfolding match_allowed is_numeric
  match_allowed-numeric sender entry h =
      let digits : all (λ c. leb b'0' c && leb c b'9') entry ≡ true = ground arith in
      let filled : is_nil entry ≡ false = ground arith in
      rw
        (
          trim_space_plain entry (digits_plain entry digits),
          filled,
          parse-digits entry digits,
          trim_space_plain entry (digits_plain entry digits),
        )
        (legacy-digits sender entry digits filled)

  -- A sender without platform id, canonical id and user name is admitted by no entry.
  pub match_allowed-anonymous :
      (sender : SenderInfo) (entry : Text)
      → is_nil sender.platform_id ≡ true
      → is_nil sender.canonical_id ≡ true
      → is_nil sender.username ≡ true
      → match_allowed sender entry ≡ false
  unfolding match_allowed
  match_allowed-anonymous sender entry i c n =
      let allowed = trim_space entry in
      elim (Option-cases (parse_canonical_id allowed)) [
        | inl absent ↦ ground (arith, legacy-anonymous sender allowed)
        | inr ((platform, id), found) ↦ ground (
          arith,
          parse-nonblank allowed platform id,
          canonical-anonymous sender platform id,
          legacy-anonymous sender allowed,
        )
      ]

  match_canonical_self :
      (sender : SenderInfo) (platform id : Text)
      → is_nil (build_canonical_id platform id) ≡ false
      → sender.canonical_id ≡ build_canonical_id platform id
      → match_canonical sender platform id ≡ true
  unfolding match_canonical equal_fold
  match_canonical_self sender platform id filled same =
      rw (same, filled, ==_self (map u.fold (build_canonical_id platform id))) refl

  -- An entry that is built from a platform and an id admits a sender with that canonical id, when
  -- neither is blank and the platform has no colon and is not a number.
  match_allowed-canonical :
      (sender : SenderInfo) (platform id : Text)
      → is_nil (to_lower (trim_space platform)) ≡ false
      → is_nil (trim_space id) ≡ false
      → no_colon (to_lower (trim_space platform)) ≡ true
      → is_numeric (to_lower (trim_space platform)) ≡ false
      → sender.canonical_id ≡ build_canonical_id platform id
      → match_allowed sender (build_canonical_id platform id) ≡ true
  unfolding match_allowed
  match_allowed-canonical sender platform id hp hi hc hn same =
      let entry = build_canonical_id platform id in
      let p = to_lower (trim_space platform) in
      let again = build_canonical_id-build platform id in
      let filled = build-filled platform id hp hi in
      rw
        (
          trim_space-build platform id hp hi,
          filled,
          parse-build_canonical_id platform id hp hi hc,
          hn,
        )
        (match_canonical_self sender p (trim_space id) (rw again filled) (same ∙ sym again))
