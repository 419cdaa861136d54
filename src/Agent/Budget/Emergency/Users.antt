-- ===== src/Agent/Budget/Emergency/Users.antt =====
-- The latest message of the user.
use suprclaw_engine.Prelude.{
  ℕ, zero, suc, ◌≤◌, ◌≡◌, refl, ◌∙◌, false, List, [], ◌∷◌, Option, none, some, nat_eq, list_eq,
  is_nil, drop, keep, arith, Option-cases, inl, inr,
}
use mathlib.Core.Bool.{true≢false}
use suprclaw_engine.Providers.Message.{Message}
use suprclaw_engine.Agent.History.Kept.{is_user}
use suprclaw_engine.Agent.Budget.Emergency.{latest_index}

abbrev pub last : List Message → Option Message
last [] = none
last (m ∷ []) = some m
last (m ∷ n ∷ l) = last (n ∷ l)

abbrev pub latest_user : List Message → Option Message
latest_user l = last (keep is_user l)

pub last-cons : (m : Message) (l : List Message) → is_nil l ≡ false → last (m ∷ l) ≡ last l
last-cons m [] h = absurd (true≢false h)
last-cons m (n ∷ l) h = refl

pub latest-none :
    (l : List Message) → latest_index (λ m ms. is_user m) l ≡ none → keep is_user l ≡ []
unfolding latest_index keep
latest-none [] h = refl
latest-none (m ∷ l) h = ground (arith, latest-none l)

latest-some :
    (l : List Message) (i : ℕ)
    → latest_index (λ m ms. is_user m) l ≡ some i
    → is_nil (keep is_user l) ≡ false
unfolding latest_index keep
latest-some [] i h = absurd (ground arith)
latest-some (m ∷ l) i h = elim (Option-cases (latest_index (λ m ms. is_user m) l)) [
  | inl e ↦ ground arith
  | inr (j, e) ↦ ground (arith, latest-some l j e)
]

-- From an index that is not behind the latest message of the user on, that message is the same.
pub latest-drop :
    (n : ℕ) (l : List Message) (i : ℕ)
    → latest_index (λ m ms. is_user m) l ≡ some i
    → n ≤ i
    → (latest_user (drop n l) ≡ latest_user l) × (is_nil (keep is_user (drop n l)) ≡ false)
unfolding latest_index keep
latest-drop zero l i h b = (refl, latest-some l i h)
latest-drop (suc n) [] i h b = absurd (ground arith)
latest-drop (suc n) (m ∷ l) i h b = elim (Option-cases (latest_index (λ m ms. is_user m) l)) [
  | inl e ↦ absurd (ground (arith, h, e, b))
  | inr (j, e) ↦
      let (same, found) = latest-drop n l j e (ground (arith, h, e, b)) in
      let longer = last-cons m (keep is_user l) (latest-some l j e) in
      (same ∙ ground (arith, longer), found)
]
