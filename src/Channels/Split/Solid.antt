-- ===== src/Channels/Split/Solid.antt =====
-- Visible characters, which no search and no trimming of pkg/channels/split.go stops at.
use suprclaw_engine.Prelude.{
  ℕ, zero, suc, ◌<◌, ◌≡◌, refl, ap, Bool, true, false, ◌&&◌, not, [], ◌∷◌, ◌++◌, ◌==◌, ltb, nat_eq,
  is_nil, length, drop, all, arith,
}
use suprclaw_engine.Prelude.Text.{Text, trim_right}
use suprclaw_engine.Prelude.Text.Laws.{trim_right-cons}
use suprclaw_engine.Prelude.Unicode.{Unicode}
use suprclaw_engine.Channels.Split.{backtick}

-- A visible character of ASCII that is not a backtick.
abbrev pub is_solid : ℕ → Bool
is_solid c = ltb 32 c && ltb c 128 && not (c == backtick)

abbrev pub fenced : Text → Text
fenced body = backtick ∷ backtick ∷ backtick ∷ body

abbrev pub is_visible : ℕ → Bool
is_visible c = ltb 32 c && ltb c 128

pub body-visible : (body : Text) → all is_solid body ≡ true → all is_visible body ≡ true
body-visible [] h = refl
body-visible (c ∷ s) h = ground (arith, body-visible s)

pub trim_right-visible :
    ⦃u : Unicode⦄ (s t : Text) (k : ℕ)
    → all is_visible s ≡ true
    → k < length s
    → is_nil (trim_right u.space (drop k (s ++ t))) ≡ false
trim_right-visible [] t k v h = absurd (omega arith)
trim_right-visible ⦃u⦄ (c ∷ s) t zero v h =
    let no_space : u.space c ≡ false = ground (arith, u.space_ascii c) in
    ap is_nil (trim_right-cons u.space c (s ++ t) no_space)
trim_right-visible (c ∷ s) t (suc k) v h = trim_right-visible s t k (ground arith) (omega arith)
