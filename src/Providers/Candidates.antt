-- ===== src/Providers/Candidates.antt =====
-- `ResolveCandidates` of pkg/providers/fallback.go: the models to try, without repetitions.
pub mod Laws
use suprclaw_engine.Prelude.{
  ℕ, ◌≡◌, ◌⊎◌, refl, Bool, true, false, ◌||◌, List, [], ◌∷◌, ◌++◌, Option, none, some,
  if◌then◌else◌, ◌==◌, nat_eq, list_eq, is_nil, contains, map, All, arith, Option-cases, Bool-cases,
  inl, inr, ==_self, sym, ◌∙◌, ap,
}
use mathlib.Core.List.{Memᴰ}
use suprclaw_engine.Prelude.Text.{Text}
use suprclaw_engine.Prelude.Unicode.{Unicode, trim_space}
use suprclaw_engine.Providers.ModelRef.{ModelRef, parse_model_ref, model_key}

pub record ModelConfig : Type 0 where
  pub primary : Text
  pub fallbacks : List Text

pub record FallbackCandidate : Type 0 where
  pub provider : Text
  pub model : Text

-- The map `seen` and the slice `candidates` of the closure.
pub record Collected : Type 0 where
  pub seen : List Text
  pub candidates : List FallbackCandidate

-- `lookup` resolves an alias of the configuration; a nil `lookup` is `λ raw. none`.
abbrev pub resolved_by : (Text → Option Text) → Text → Text
resolved_by lookup raw = elim (lookup raw) [ none ↦ raw | some resolved ↦ resolved ]

module _ ⦃u : Unicode⦄ where
  -- The part of the closure behind the parse.
  unfoldable pub add_ref : Option ModelRef → Collected → Collected
  add_ref none c = c
  add_ref (some ref) c =
      let key = model_key ref.provider ref.model in
      if contains c.seen key then c else record {
        seen = key ∷ c.seen;
        candidates = c.candidates ++ (record { provider = ref.provider; model = ref.model } ∷ []);
      }

module _ ⦃u : Unicode⦄ (lookup : Text → Option Text) (default_provider : Text) where
  -- The reference that a raw model name stands for.
  abbrev pub reference : Text → Option ModelRef
  reference raw = parse_model_ref (resolved_by lookup (trim_space raw)) default_provider

  -- The closure `addCandidate`.
  unfoldable pub add_candidate : Text → Collected → Collected
  unfolding add_ref
  add_candidate raw c = add_ref (reference raw) c

  unfoldable pub add_all : List Text → Collected → Collected
  add_all [] c = c
  add_all (raw ∷ raws) c = add_all raws (add_candidate raw c)

  unfoldable pub resolve_candidates_with_lookup : ModelConfig → List FallbackCandidate
  unfolding add_candidate add_all
  resolve_candidates_with_lookup cfg =
      (add_all cfg.fallbacks
        (add_candidate cfg.primary (record { seen = []; candidates = [] }))).candidates

module _ ⦃u : Unicode⦄ where
  unfoldable pub resolve_candidates : ModelConfig → Text → List FallbackCandidate
  unfolding resolve_candidates_with_lookup
  resolve_candidates cfg default_provider =
      resolve_candidates_with_lookup (λ raw. none) default_provider cfg
