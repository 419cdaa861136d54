-- ===== src/Prelude/Text/Laws.antt =====
-- Laws of trimming.
use suprclaw_engine.Prelude.Tests.{nat_eq}
use suprclaw_engine.Prelude.Lists.{is_nil, all, take, length}
use suprclaw_engine.Prelude.Text.{Text, trim_left, trim_right}
use Prim.Native.Nat.{ℕ, zero, suc, ◌≤◌}
use mathlib.Core.Path.{◌≡◌, refl}
use mathlib.Core.Bool.{Bool, true, false, ◌&&◌, not}
use mathlib.Core.List.{[], ◌∷◌, ◌++◌}
use native.Mathlib.Omega.{arith}

-- The text begins with a code point that passes the test.
abbrev pub head_is : (ℕ → Bool) → Text → Bool
head_is p [] = false
head_is p (c ∷ s) = p c

is_nil-append : (s t : Text) → is_nil t ≡ false → is_nil (s ++ t) ≡ false
is_nil-append [] t h = h
is_nil-append (c ∷ s) t h = refl

module _ (p : ℕ → Bool) where
  pub head_is-trim_left : (s : Text) → head_is p (trim_left p s) ≡ false
  unfolding trim_left
  head_is-trim_left [] = refl
  head_is-trim_left (c ∷ s) = ground (arith, head_is-trim_left s)

  pub trim_left_id : (s : Text) → head_is p s ≡ false → trim_left p s ≡ s
  unfolding trim_left
  trim_left_id [] h = refl
  trim_left_id (c ∷ s) h = rw h refl

  pub trim_right-cons : (c : ℕ) (s : Text) → p c ≡ false → trim_right p (c ∷ s) ≡ c ∷ trim_right p s
  unfolding trim_right
  trim_right-cons c s h = rw h refl

  pub trim_right-append :
      (s t : Text) → is_nil (trim_right p t) ≡ false → trim_right p (s ++ t) ≡ s ++ trim_right p t
  unfolding trim_right
  trim_right-append [] t h = refl
  trim_right-append (c ∷ s) t h =
      rw (trim_right-append s t h) (ground (arith, h, is_nil-append s (trim_right p t)))

  pub trim_right_idem : (s : Text) → trim_right p (trim_right p s) ≡ trim_right p s
  unfolding trim_right
  trim_right_idem [] = refl
  trim_right_idem (c ∷ s) = ground (arith, trim_right_idem s)

  module _ (q : ℕ → Bool) where
    pub all-trim_left : (s : Text) → all q s ≡ true → all q (trim_left p s) ≡ true
    unfolding trim_left
    all-trim_left [] h = refl
    all-trim_left (c ∷ s) h = ground (arith, all-trim_left s)

    pub all-trim_right : (s : Text) → all q s ≡ true → all q (trim_right p s) ≡ true
    unfolding trim_right
    all-trim_right [] h = refl
    all-trim_right (c ∷ s) h = ground (arith, all-trim_right s)

pub all-take : (q : ℕ → Bool) (n : ℕ) (s : Text) → all q s ≡ true → all q (take n s) ≡ true
all-take q zero s h = refl
all-take q (suc n) [] h = refl
all-take q (suc n) (c ∷ s) h = ground (arith, all-take q n s)

-- No character passes the test.
abbrev pub none_is : (ℕ → Bool) → Text → Bool
none_is p [] = true
none_is p (c ∷ s) = not (p c) && none_is p s

pub trim_right_id : (p : ℕ → Bool) (s : Text) → none_is p s ≡ true → trim_right p s ≡ s
unfolding trim_right
trim_right_id p [] h = refl
trim_right_id p (c ∷ s) h = ground (arith, trim_right_id p s)

pub head_is_of_none_is : (p : ℕ → Bool) (s : Text) → none_is p s ≡ true → head_is p s ≡ false
head_is_of_none_is p [] h = refl
head_is_of_none_is p (c ∷ s) h = ground arith

pub head_is-trim_right :
    (p : ℕ → Bool) (s : Text) → head_is p s ≡ false → head_is p (trim_right p s) ≡ false
unfolding trim_right
head_is-trim_right p [] h = refl
head_is-trim_right p (c ∷ s) h = rw h h

pub length-trim_right : (p : ℕ → Bool) (s : Text) → length (trim_right p s) ≤ length s
unfolding trim_right
length-trim_right p [] = omega arith
length-trim_right p (c ∷ s) = ground (arith, length-trim_right p s)

pub length-trim_left : (p : ℕ → Bool) (s : Text) → length (trim_left p s) ≤ length s
unfolding trim_left
length-trim_left p [] = omega arith
length-trim_left p (c ∷ s) = ground (arith, length-trim_left p s)
