-- ===== src/Prelude/Finding.antt =====
-- What `find` and `keep` return.
use mathlib.Core.Path.{◌≡◌}
use mathlib.Core.Logic.{inl, inr}
use mathlib.Core.Bool.{Bool, true, false}
use mathlib.Core.List.{List, [], ◌∷◌, Memᴰ}
use mathlib.Core.Option.{none, some}
use native.Mathlib.Omega.{arith}
use suprclaw_engine.Prelude.Tests.{Bool-cases}
use suprclaw_engine.Prelude.Lists.{keep, find}

module _ {ℓ} {A : Type ℓ} (p : A → Bool) where
  pub find_sound : (xs : List A) (x : A) → find p xs ≡ some x → Memᴰ x xs × (p x ≡ true)
  find_sound [] x h = absurd (ground arith)
  find_sound (y ∷ xs) x h = elim (Bool-cases (p y)) [
    | inl e ↦ let same : x ≡ y = ground arith in (Memᴰ.head same, ground arith)
    | inr e ↦ let (m, t) = find_sound xs x (ground arith) in (Memᴰ.tail m, t)
  ]

  pub find-none : (xs : List A) (x : A) → find p xs ≡ none → Memᴰ x xs → p x ≡ false
  find-none [] x h m = elim m [ ]
  find-none (y ∷ xs) x h (Memᴰ.head e) = ground arith
  find-none (y ∷ xs) x h (Memᴰ.tail m) = find-none xs x (ground arith) m

  pub keep_sound : (xs : List A) (x : A) → Memᴰ x (keep p xs) → Memᴰ x xs × (p x ≡ true)
  unfolding keep
  keep_sound [] x m = elim m [ ]
  keep_sound (y ∷ xs) x m = elim (Bool-cases (p y)) [
    | inl e ↦ go (keep_sound xs x) e (rw e at m)
    | inr e ↦ let (m', t) = keep_sound xs x (rw e at m) in (Memᴰ.tail m', t)
  ]
    where
      go :
          (Memᴰ x (keep p xs) → Memᴰ x xs × (p x ≡ true))
          → p y ≡ true
          → Memᴰ x (y ∷ keep p xs)
          → Memᴰ x (y ∷ xs) × (p x ≡ true)
      go rec e (Memᴰ.head same) = (Memᴰ.head same, rw same e)
      go rec e (Memᴰ.tail m') = let (m'', t) = rec m' in (Memᴰ.tail m'', t)

  pub keep_complete : (xs : List A) (x : A) → Memᴰ x xs → p x ≡ true → Memᴰ x (keep p xs)
  unfolding keep
  keep_complete [] x m t = elim m [ ]
  keep_complete (y ∷ xs) x (Memᴰ.head e) t =
      let here : p y ≡ true = ground arith in rw here (Memᴰ.head e)
  keep_complete (y ∷ xs) x (Memᴰ.tail m) t = elim (Bool-cases (p y)) [
    | inl e ↦ rw e (Memᴰ.tail (keep_complete xs x m t))
    | inr e ↦ rw e (keep_complete xs x m t)
  ]
