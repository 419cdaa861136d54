-- ===== src/Prelude/Distinct.antt =====
-- Lists without repetitions, by the Boolean test `contains`.
use mathlib.Core.Path.{◌≡◌, refl}
use mathlib.Core.Bool.{Bool, true, false, ◌&&◌, ◌||◌, not}
use mathlib.Core.List.{List, [], ◌∷◌, ◌++◌}
use native.Mathlib.Omega.{arith}
use suprclaw_engine.Prelude.Tests.{Eq, ◌==◌}
use suprclaw_engine.Prelude.Lists.{contains}

module _ {ℓ} {A : Type ℓ} ⦃e : Eq A⦄ where
  abbrev pub distinct : List A → Bool
  distinct [] = true
  distinct (k ∷ ks) = not (contains ks k) && distinct ks

  pub contains-add :
      (ks : List A) (k a : A) → contains (ks ++ (k ∷ [])) a ≡ (contains ks a || a == k)
  contains-add [] k a = ground arith
  contains-add (j ∷ ks) k a = ground (arith, contains-add ks k a)

  pub distinct-add :
      (ks : List A) (k : A)
      → contains ks k ≡ false
      → distinct ks ≡ true
      → distinct (ks ++ (k ∷ [])) ≡ true
  distinct-add [] k h d = refl
  distinct-add (j ∷ ks) k h d = ground (arith, contains-add ks k j, distinct-add ks k)
