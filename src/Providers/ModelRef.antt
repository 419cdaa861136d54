-- ===== src/Providers/ModelRef.antt =====
-- pkg/providers/model_ref.go: references to models, and the key under which they are compared.
pub mod Laws
use suprclaw_engine.Prelude.{
  ℕ, Bool, true, false, List, [], ◌∷◌, ◌++◌, Option, none, some, if◌then◌else◌, ◌==◌, nat_eq,
  list_eq, is_nil,
}
use suprclaw_engine.Prelude.Text.{Text, codes, cut}
use suprclaw_engine.Prelude.Unicode.{Unicode, to_lower, trim_space}

pub record ModelRef : Type 0 where
  pub provider : Text
  pub model : Text

-- The cases of the `switch` of `NormalizeProvider`.
abbrev pub aliases : List (Text × Text)
aliases =
    (codes "z.ai", codes "zai")
    ∷ (codes "z-ai", codes "zai")
    ∷ (codes "opencode-zen", codes "opencode")
    ∷ (codes "qwen", codes "qwen-portal")
    ∷ (codes "kimi-code", codes "kimi-coding")
    ∷ (codes "gpt", codes "openai")
    ∷ (codes "claude", codes "anthropic")
    ∷ (codes "glm", codes "zhipu")
    ∷ (codes "google", codes "gemini")
    ∷ []

unfoldable pub switch : List (Text × Text) → Text → Text
switch [] p = p
switch ((alias, name) ∷ rest) p = if p == alias then name else switch rest p

module _ ⦃u : Unicode⦄ where
  unfoldable pub normalize_provider : Text → Text
  unfolding switch
  normalize_provider provider = switch aliases (to_lower (trim_space provider))

  unfoldable pub parse_model_ref : Text → Text → Option ModelRef
  parse_model_ref raw default_provider =
      let raw' = trim_space raw in
      let whole : Option ModelRef =
        some (record { provider = normalize_provider default_provider; model = raw' }) in
      if is_nil raw' then none else elim (cut b'/' raw') [
        | none ↦ whole
        | some (before, after) ↦
            let model = trim_space after in
            if is_nil before
            then whole
            else if is_nil model
            then none
            else some (record { provider = normalize_provider before; model = model })
      ]

  unfoldable pub model_key : Text → Text → Text
  model_key provider model = normalize_provider provider ++ (b'/' ∷ to_lower (trim_space model))
