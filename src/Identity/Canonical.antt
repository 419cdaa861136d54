-- ===== src/Identity/Canonical.antt =====
-- Building and parsing canonical ids in pkg/identity/identity.go.
use suprclaw_engine.Prelude.{
  ◌≡◌, refl, ◌∙◌, Bool, true, false, [], ◌∷◌, ◌++◌, some, ◌==◌, nat_eq, list_eq, is_nil, arith,
}
use suprclaw_engine.Prelude.Text.{Text, cut, trim_left, trim_right}
use suprclaw_engine.Prelude.Text.Laws.{
  head_is, none_is, trim_left_id, trim_right-cons, trim_right-append, trim_right_idem,
  head_is-trim_left, head_is-trim_right,
}
use suprclaw_engine.Prelude.Unicode.{
  Unicode, to_lower, trim_space, trim_space-to_lower, trim_space_idem, to_lower_idem,
}
use suprclaw_engine.Identity.{build_canonical_id, parse_canonical_id}

-- A text has no colon.
abbrev pub no_colon : Text → Bool
no_colon s = none_is (λ c. c == b':') s

cut-joined : (p i : Text) → no_colon p ≡ true → cut b':' (p ++ (b':' ∷ i)) ≡ some (p, i)
unfolding cut nat_eq
cut-joined [] i h = refl
cut-joined (c ∷ p) i h = ground (arith, cut-joined p i)

module _ ⦃u : Unicode⦄ where
  space_colon : u.space b':' ≡ false
  space_colon = u.space_ascii b':' (ground arith)

  head-lower : (s : Text) → head_is u.space (to_lower s) ≡ head_is u.space s
  unfolding to_lower
  head-lower [] = refl
  head-lower (c ∷ s) = u.space-lower c

  head-append : (s t : Text) → is_nil s ≡ false → head_is u.space (s ++ t) ≡ head_is u.space s
  head-append [] t h = ground arith
  head-append (c ∷ s) t h = refl

  head-trim_space : (s : Text) → head_is u.space (trim_space s) ≡ false
  unfolding trim_space
  head-trim_space s = head_is-trim_right u.space (trim_left u.space s) (head_is-trim_left u.space s)

  trim_right-trim_space : (s : Text) → trim_right u.space (trim_space s) ≡ trim_space s
  unfolding trim_space
  trim_right-trim_space s = trim_right_idem u.space (trim_left u.space s)

  colon_stays : (s : Text) → is_nil (trim_right u.space (b':' ∷ s)) ≡ false
  colon_stays s = rw (trim_right-cons u.space b':' s space_colon) refl

  -- An id that is built needs no trimming.
  trim_space-joined :
      (platform id : Text)
      → let p = to_lower (trim_space platform) in
        is_nil p ≡ false → trim_space (p ++ (b':' ∷ trim_space id)) ≡ p ++ (b':' ∷ trim_space id)
  unfolding trim_space
  trim_space-joined platform id h =
      let p = to_lower (trim_space platform) in
      let i = trim_space id in
      rw
        (
          trim_left_id u.space (p ++ (b':' ∷ i)) (
              head-append p (b':' ∷ i) h
              ∙ head-lower (trim_space platform)
              ∙ head-trim_space platform),
          trim_right-append u.space p (b':' ∷ i) (colon_stays i),
          trim_right-cons u.space b':' i space_colon,
          trim_right-trim_space id,
        )
        refl

  build-joined :
      (platform id : Text)
      → is_nil (to_lower (trim_space platform)) ≡ false
      → is_nil (trim_space id) ≡ false
      → build_canonical_id platform id ≡ to_lower (trim_space platform) ++ (b':' ∷ trim_space id)
  unfolding build_canonical_id
  build-joined platform id hp hi = rw (hp, hi) refl

  pub build-filled :
      (platform id : Text)
      → is_nil (to_lower (trim_space platform)) ≡ false
      → is_nil (trim_space id) ≡ false
      → is_nil (build_canonical_id platform id) ≡ false
  build-filled platform id hp hi =
      rw (build-joined platform id hp hi) (filled (to_lower (trim_space platform)))
    where
      filled : (s : Text) → is_nil (s ++ (b':' ∷ trim_space id)) ≡ false
      filled [] = refl
      filled (c ∷ s) = refl

  pub trim_space-build :
      (platform id : Text)
      → is_nil (to_lower (trim_space platform)) ≡ false
      → is_nil (trim_space id) ≡ false
      → trim_space (build_canonical_id platform id) ≡ build_canonical_id platform id
  trim_space-build platform id hp hi =
      rw (build-joined platform id hp hi) (trim_space-joined platform id hp)

  -- Building from parts that are lowered and trimmed already.
  pub build_canonical_id-build :
      (platform id : Text)
      → build_canonical_id (to_lower (trim_space platform)) (trim_space id)
        ≡ build_canonical_id platform id
  unfolding build_canonical_id
  build_canonical_id-build platform id =
      rw
        (
          trim_space-to_lower (trim_space platform),
          trim_space_idem platform,
          to_lower_idem (trim_space platform),
          trim_space_idem id,
        )
        refl

  -- A canonical id parses back to the lowered platform and the id that it was built from, both
  -- trimmed, when neither is blank and the platform has no colon.
  pub parse-build_canonical_id :
      (platform id : Text)
      → is_nil (to_lower (trim_space platform)) ≡ false
      → is_nil (trim_space id) ≡ false
      → no_colon (to_lower (trim_space platform)) ≡ true
      → parse_canonical_id (build_canonical_id platform id)
        ≡ some (to_lower (trim_space platform), trim_space id)
  unfolding parse_canonical_id
  parse-build_canonical_id platform id hp hi hc =
      let p = to_lower (trim_space platform) in
      rw
        (
          build-joined platform id hp hi,
          parse_canonical_id,
          trim_space-joined platform id hp,
          cut-joined p (trim_space id) hc,
          hp,
          hi,
        )
        refl
