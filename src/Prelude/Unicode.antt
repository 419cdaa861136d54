-- ===== src/Prelude/Unicode.antt =====
-- The tables of package `unicode` that `strings.ToLower`, `strings.TrimSpace` and
-- `strings.EqualFold` read, with what the program relies on: ASCII text is treated as documented,
-- and lowering keeps white space.
pub mod Ascii
use Prim.Native.Nat.{ℕ, ◌+◌, ◌<◌}
use mathlib.Core.Path.{◌≡◌, refl}
use mathlib.Core.Bool.{Bool, true, ◌&&◌, ◌||◌, not}
use mathlib.Core.List.{map, map-append, ◌++◌, [], ◌∷◌}
use native.Mathlib.Omega.{arith}
use suprclaw_engine.Prelude.Lists.{all}
use suprclaw_engine.Prelude.Tests.{if◌then◌else◌, ltb, leb, ◌==◌, nat_eq}
use suprclaw_engine.Prelude.Text.{Text, trim_left, trim_right}
use suprclaw_engine.Prelude.Text.Laws.{
  none_is, head_is-trim_right, head_is-trim_left, trim_right_idem, trim_left_id, trim_right_id,
  head_is_of_none_is,
}

abbrev pub ascii_lower : ℕ → ℕ
ascii_lower c = if leb b'A' c && leb c b'Z' then c + 32 else c

-- '\t', '\n', '\v', '\f', '\r' and ' '.
abbrev pub ascii_space : ℕ → Bool
ascii_space c = leb 9 c && leb c 13 || leb 32 c && leb c 32

pub record Unicode : Type 0 where
  pub lower : ℕ → ℕ
  pub space : ℕ → Bool
  pub lower_ascii : (c : ℕ) → c < 128 → lower c ≡ ascii_lower c
  pub space_ascii : (c : ℕ) → c < 128 → space c ≡ ascii_space c
  pub lower_idem : (c : ℕ) → lower (lower c) ≡ lower c
  pub space-lower : (c : ℕ) → space (lower c) ≡ space c
  pub fold : ℕ → ℕ
  pub fold_ascii : (c : ℕ) → c < 128 → fold c ≡ ascii_lower c

module _ ⦃u : Unicode⦄ where
  -- `strings.ToLower`.
  unfoldable pub to_lower : Text → Text
  to_lower = map u.lower

  -- `strings.TrimSpace`.
  unfoldable pub trim_space : Text → Text
  trim_space s = trim_right u.space (trim_left u.space s)

  -- Trimming leaves a text without white space alone.
  pub trim_space_id : (s : Text) → none_is u.space s ≡ true → trim_space s ≡ s
  unfolding trim_space
  trim_space_id s h =
      rw (trim_left_id u.space s (head_is_of_none_is u.space s h)) (trim_right_id u.space s h)

  -- Lowering leaves ASCII text without capitals alone.
  pub to_lower_plain :
      (s : Text) → all (λ c. ltb c 128 && not (leb b'A' c && leb c b'Z')) s ≡ true → to_lower s ≡ s
  unfolding to_lower
  to_lower_plain [] h = refl
  to_lower_plain (c ∷ s) h = ground (arith, u.lower_ascii c, to_lower_plain s)

  pub to_lower-append : (s t : Text) → to_lower (s ++ t) ≡ to_lower s ++ to_lower t
  unfolding to_lower
  to_lower-append s t = map-append u.lower s t

  pub to_lower_idem : (s : Text) → to_lower (to_lower s) ≡ to_lower s
  unfolding to_lower
  to_lower_idem [] = refl
  to_lower_idem (c ∷ s) = cc (u.lower_idem c, to_lower_idem s)

  pub trim_space_idem : (s : Text) → trim_space (trim_space s) ≡ trim_space s
  unfolding trim_space
  trim_space_idem s =
      let l = trim_left u.space s in
      rw
        (trim_left_id u.space (trim_right u.space l)
          (head_is-trim_right u.space l (head_is-trim_left u.space s)))
        (trim_right_idem u.space l)

  trim_left-lower : (s : Text) → trim_left u.space (to_lower s) ≡ to_lower (trim_left u.space s)
  unfolding trim_left to_lower
  trim_left-lower [] = refl
  trim_left-lower (c ∷ s) = ground (arith, u.space-lower c, trim_left-lower s)

  trim_right-lower : (s : Text) → trim_right u.space (to_lower s) ≡ to_lower (trim_right u.space s)
  unfolding trim_right to_lower
  trim_right-lower [] = refl
  trim_right-lower (c ∷ s) = ground (arith, u.space-lower c, trim_right-lower s)

  -- Trimming and lowering commute.
  pub trim_space-to_lower : (s : Text) → trim_space (to_lower s) ≡ to_lower (trim_space s)
  unfolding trim_space
  trim_space-to_lower s = rw (trim_left-lower s) (trim_right-lower (trim_left u.space s))

  -- Trimming leaves ASCII text without white space alone.
  pub trim_space_plain : (s : Text) → all (λ c. ltb 32 c && ltb c 128) s ≡ true → trim_space s ≡ s
  trim_space_plain s h = trim_space_id s (no_space s h)
    where
      no_space : (s : Text) → all (λ c. ltb 32 c && ltb c 128) s ≡ true → none_is u.space s ≡ true
      no_space [] h = refl
      no_space (c ∷ s) h = ground (arith, u.space_ascii c, no_space s)
