-- ===== src/Providers/ModelRef/Laws.antt =====
-- The normal form of providers and references of pkg/providers/model_ref.go.
use suprclaw_engine.Prelude.{
  ◌≡◌, refl, sym, ◌∙◌, ap, ◌⊎◌, Bool, true, false, ◌&&◌, not, List, [], ◌∷◌, some, ◌==◌, nat_eq,
  list_eq, is_nil, All, Bool-cases, Option-cases, inl, inr, arith, all, ltb, leb,
}
use suprclaw_engine.Prelude.Text.{Text, cut}
use suprclaw_engine.Prelude.Unicode.{
  Unicode, to_lower, trim_space, to_lower_idem, trim_space_idem, trim_space-to_lower,
  trim_space_plain, to_lower_plain,
}
use suprclaw_engine.Providers.ModelRef.{
  ModelRef, aliases, switch, normalize_provider, parse_model_ref,
}

-- A name that is plain text and no alias.
abbrev is_final : Text → Bool
is_final name =
    all (λ c. ltb 32 c && ltb c 128) name
    && (all (λ c. ltb c 128 && not (leb b'A' c && leb c b'Z')) name && switch aliases name == name)

names_final : All (λ (a : Text × Text). is_final a.1 ≡ true) aliases
unfolding switch list_eq nat_eq
names_final = (refl, (refl, (refl, (refl, (refl, (refl, (refl, (refl, (refl, tt)))))))))

-- The switch gives back its argument or the name of an alias.
switch_cases :
    (rest : List (Text × Text)) (p : Text)
    → All (λ (a : Text × Text). is_final a.1 ≡ true) rest
    → (switch rest p ≡ p) ⊎ (is_final (switch rest p) ≡ true)
unfolding switch
switch_cases [] p h = inl refl
switch_cases ((alias, name) ∷ rest) p h = elim (Bool-cases (p == alias)) [
  | inl same ↦ inr (rw same h.0)
  | inr different ↦ rw different (switch_cases rest p h.1)
]

module _ ⦃u : Unicode⦄ where
  normalize_final : (p : Text) → is_final p ≡ true → normalize_provider p ≡ p
  unfolding normalize_provider
  normalize_final p h =
      let s : switch aliases p ≡ p = ground arith in
      rw (trim_space_plain p (ground arith), to_lower_plain p (ground arith)) s

  normalize_fixed :
      (s : Text)
      → let p = to_lower (trim_space s) in switch aliases p ≡ p → normalize_provider p ≡ p
  unfolding normalize_provider
  normalize_fixed s h =
      rw (trim_space-to_lower (trim_space s), trim_space_idem s, to_lower_idem (trim_space s)) h

  -- A canonical provider name stays as it is.
  normalize_provider_idem :
      (s : Text) → normalize_provider (normalize_provider s) ≡ normalize_provider s
  normalize_provider_idem s = elim (switch_cases aliases (to_lower (trim_space s)) names_final) [
    | inl fixed ↦ by_fixed fixed
    | inr final ↦ by_final final
  ]
    where
      by_fixed :
          switch aliases (to_lower (trim_space s)) ≡ to_lower (trim_space s)
          → normalize_provider (normalize_provider s) ≡ normalize_provider s
      by_fixed h =
          let e : normalize_provider s ≡ to_lower (trim_space s) = unfold normalize_provider in h in
          ap normalize_provider e ∙ normalize_fixed s h ∙ sym e

      by_final :
          is_final (switch aliases (to_lower (trim_space s))) ≡ true
          → normalize_provider (normalize_provider s) ≡ normalize_provider s
      by_final h = normalize_final (normalize_provider s) (unfold normalize_provider in h)

  -- A parsed reference has a canonical provider and a trimmed model name that is not empty.
  parse_model_ref_normal :
      (raw default_provider : Text) (ref : ModelRef)
      → parse_model_ref raw default_provider ≡ some ref
      → (normalize_provider ref.provider ≡ ref.provider)
        × (trim_space ref.model ≡ ref.model)
        × (is_nil ref.model ≡ false)
  unfolding parse_model_ref
  parse_model_ref_normal raw d ref h = elim (Option-cases (cut b'/' (trim_space raw))) [
    | inl no_slash ↦ ground (arith, normalize_provider_idem d, trim_space_idem raw)
    | inr (parts, found) ↦ ground (
      arith,
      normalize_provider_idem d,
      trim_space_idem raw,
      normalize_provider_idem parts.0,
      trim_space_idem parts.1,
    )
  ]
