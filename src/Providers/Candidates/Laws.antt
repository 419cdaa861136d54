-- ===== src/Providers/Candidates/Laws.antt =====
-- The keys of the candidates that pkg/providers/fallback.go collects.
use suprclaw_engine.Prelude.{
  ◌≡◌, refl, ◌∙◌, ap, sym, true, List, [], ◌∷◌, ◌++◌, Option, none, some, nat_eq, list_eq, contains,
  map, All, arith, Bool-cases, inl, inr, ==_self,
}
use suprclaw_engine.Prelude.Distinct.{distinct, contains-add, distinct-add}
use suprclaw_engine.Prelude.Text.{Text}
use suprclaw_engine.Prelude.Unicode.{Unicode}
use suprclaw_engine.Providers.ModelRef.{ModelRef, model_key}
use suprclaw_engine.Providers.Candidates.{
  ModelConfig, FallbackCandidate, Collected, reference, add_ref, add_candidate, add_all,
  resolve_candidates_with_lookup,
}

-- No text stands in the list twice.
module _ ⦃u : Unicode⦄ where
  abbrev pub candidate_key : FallbackCandidate → Text
  candidate_key c = model_key c.provider c.model

  abbrev pub keys : List FallbackCandidate → List Text
  keys = map candidate_key

  keys-add :
      (cs : List FallbackCandidate) (c : FallbackCandidate)
      → keys (cs ++ (c ∷ [])) ≡ keys cs ++ (candidate_key c ∷ [])
  keys-add [] c = refl
  keys-add (d ∷ cs) c = ap (λ l. candidate_key d ∷ l) (keys-add cs c)

  record IsCollected (c : Collected) : Type 0 where
    seen_keys : (k : Text) → contains c.seen k ≡ contains (keys c.candidates) k
    unique : distinct (keys c.candidates) ≡ true

  add_ref-IsCollected :
      (ref : Option ModelRef) (c : Collected) → IsCollected c → IsCollected (add_ref ref c)
  unfolding add_ref
  add_ref-IsCollected none c h = h
  add_ref-IsCollected (some ref) c h =
      let key : Text = model_key ref.provider ref.model in
      let new : FallbackCandidate = record { provider = ref.provider; model = ref.model } in
      elim (Bool-cases (contains c.seen key)) [
        | inl old ↦ rw (old, add_ref) h
        | inr fresh ↦
            rw (fresh, add_ref)
              (record {
                seen_keys = λ k.
                    rw (keys-add c.candidates new, contains-add (keys c.candidates) key k)
                      (ground (arith, h.seen_keys k));
                unique =
                    rw (keys-add c.candidates new) (
                      distinct-add (keys c.candidates) key (sym (h.seen_keys key) ∙ fresh)
                        h.unique);
              })
      ]

  -- The key of the reference, if there is one, is among the keys.
  abbrev pub Covers : List FallbackCandidate → Option ModelRef → Type 0
  Covers cs none = Unit
  Covers cs (some ref) = contains (keys cs) (model_key ref.provider ref.model) ≡ true

  add_ref-Covers :
      (ref : Option ModelRef) (c : Collected)
      → IsCollected c
      → Covers (add_ref ref c).candidates ref
  unfolding add_ref
  add_ref-Covers none c h = tt
  add_ref-Covers (some ref) c h =
      let key : Text = model_key ref.provider ref.model in
      let new : FallbackCandidate = record { provider = ref.provider; model = ref.model } in
      elim (Bool-cases (contains c.seen key)) [
        | inl old ↦ rw (old, add_ref) (sym (h.seen_keys key) ∙ old)
        | inr fresh ↦
            rw
              (
                fresh,
                add_ref,
                keys-add c.candidates new,
                contains-add (keys c.candidates) key key,
                ==_self key,
              )
              (ground arith)
      ]

  add_ref_keeps :
      (ref : Option ModelRef) (c : Collected) (k : Text)
      → contains (keys c.candidates) k ≡ true
      → contains (keys (add_ref ref c).candidates) k ≡ true
  unfolding add_ref
  add_ref_keeps none c k h = h
  add_ref_keeps (some ref) c k h =
      let key : Text = model_key ref.provider ref.model in
      let new : FallbackCandidate = record { provider = ref.provider; model = ref.model } in
      elim (Bool-cases (contains c.seen key)) [
        | inl old ↦ rw (old, add_ref) h
        | inr fresh ↦
            rw
              (fresh, add_ref, keys-add c.candidates new, contains-add (keys c.candidates) key k, h)
              refl
      ]

module _ ⦃u : Unicode⦄ (lookup : Text → Option Text) (default_provider : Text) where
  add_all-IsCollected :
      (raws : List Text) (c : Collected)
      → IsCollected c
      → IsCollected (add_all lookup default_provider raws c)
  unfolding add_all add_candidate
  add_all-IsCollected [] c h = h
  add_all-IsCollected (raw ∷ raws) c h = add_all-IsCollected raws _ (add_ref-IsCollected _ c h)

  add_all_keeps :
      (raws : List Text) (c : Collected) (k : Text)
      → contains (keys c.candidates) k ≡ true
      → contains (keys (add_all lookup default_provider raws c).candidates) k ≡ true
  unfolding add_all add_candidate
  add_all_keeps [] c k h = h
  add_all_keeps (raw ∷ raws) c k h = add_all_keeps raws _ k (add_ref_keeps _ c k h)

  Covers-later :
      (raws : List Text) (c : Collected) (ref : Option ModelRef)
      → Covers c.candidates ref
      → Covers (add_all lookup default_provider raws c).candidates ref
  Covers-later raws c none h = tt
  Covers-later raws c (some ref) h = add_all_keeps raws c _ h

  add_all-Covers :
      (raws : List Text) (c : Collected)
      → IsCollected c
      → All
          (λ (raw : Text).
            Covers
              (add_all lookup default_provider raws c).candidates
              (reference lookup default_provider raw))
          raws
  unfolding add_all add_candidate
  add_all-Covers [] c h = tt
  add_all-Covers (raw ∷ raws) c h =
      let ref = reference lookup default_provider raw in
      (
        Covers-later raws (add_ref ref c) ref (add_ref-Covers ref c h),
        add_all-Covers raws (add_ref ref c) (add_ref-IsCollected ref c h),
      )

  -- No two candidates have one key, and every model of the configuration that parses, the primary one
  -- and each fallback, has its key among the candidates.
  pub resolve_candidates_with_lookup_lem :
      (cfg : ModelConfig)
      → let cs = resolve_candidates_with_lookup lookup default_provider cfg in
        (distinct (keys cs) ≡ true)
        × All
            (λ (raw : Text). Covers cs (reference lookup default_provider raw))
            (cfg.primary ∷ cfg.fallbacks)
  unfolding resolve_candidates_with_lookup
  resolve_candidates_with_lookup_lem cfg =
      let start : Collected = record { seen = []; candidates = [] } in
      let empty : IsCollected start = record { seen_keys = λ k. refl; unique = refl } in
      (
        (add_all-IsCollected (cfg.primary ∷ cfg.fallbacks) start empty).unique,
        add_all-Covers (cfg.primary ∷ cfg.fallbacks) start empty,
      )
