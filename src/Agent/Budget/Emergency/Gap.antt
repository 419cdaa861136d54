-- ===== src/Agent/Budget/Emergency/Gap.antt =====
-- The messages between a turn and the message that it may follow.
use suprclaw_engine.Prelude.{
  ℕ, zero, suc, ◌-◌, ◌≤◌, ◌≡◌, refl, sym, ◌∙◌, ap, subst, false, List, [], ◌∷◌, ◌++◌, Option, none,
  some, nat_eq, list_eq, take, drop, keep, arith, Option-cases, inl, inr,
}
use mathlib.Core.List.{Sublistᴰ}
use mathlib.Core.List.Sublistᴰ
use suprclaw_engine.Prelude.Slices.{take-drop, keep-append}
use suprclaw_engine.Providers.Message.{Message}
use suprclaw_engine.Agent.History.Kept.{is_user}
use suprclaw_engine.Agent.Budget.Emergency.{latest_index, is_bridge, latest_bridge}

abbrev pub bridge_index : List Message → Option ℕ
bridge_index l = latest_index (λ m ms. is_bridge m) l

pub no_bridge-users : (l : List Message) → bridge_index l ≡ none → keep is_user l ≡ []
unfolding latest_index keep
no_bridge-users [] h = refl
no_bridge-users (m ∷ l) h = ground (arith, no_bridge-users l)

pub gap-sublist :
    (a b : List Message) (i : ℕ)
    → bridge_index a ≡ some i
    → Sublistᴰ (take (suc i) (a ++ b) ++ b) (a ++ b)
unfolding latest_index
gap-sublist [] b i h = absurd (ground arith)
gap-sublist (m ∷ a) b i h = elim (Option-cases (bridge_index a)) [
  | inl e ↦
      let first : i ≡ 0 = ground (arith, h, e) in
      rw first
        (Sublistᴰ.cons-cons refl (Sublistᴰ.append (Sublistᴰ.nil-sublist a) (Sublistᴰ.refl b)))
  | inr (j, e) ↦
      let later : i ≡ suc j = ground (arith, h, e) in
      rw later (Sublistᴰ.cons-cons refl (gap-sublist a b j e))
]

pub gap-users :
    (a b : List Message) (i : ℕ)
    → bridge_index a ≡ some i
    → keep is_user (take (suc i) (a ++ b)) ≡ keep is_user a
unfolding latest_index keep
gap-users [] b i h = absurd (ground arith)
gap-users (m ∷ a) b i h = elim (Option-cases (bridge_index a)) [
  | inl e ↦
      let first : i ≡ 0 = ground (arith, h, e) in rw first (ground (arith, no_bridge-users a e))
  | inr (j, e) ↦
      let later : i ≡ suc j = ground (arith, h, e) in rw later (ground (arith, gap-users a b j e))
]

latest_bridge-none : (l : List Message) → bridge_index l ≡ none → latest_bridge l ≡ none
unfolding latest_index latest_bridge
latest_bridge-none [] h = refl
latest_bridge-none (m ∷ l) h = ground (arith, latest_bridge-none l)

pub latest_bridge-append :
    (a b : List Message) → bridge_index b ≡ none → latest_bridge (a ++ b) ≡ latest_bridge a
unfolding latest_bridge
latest_bridge-append [] b h = latest_bridge-none b h
latest_bridge-append (m ∷ a) b h = ground (arith, latest_bridge-append a b h)

pub latest_bridge-sublist :
    (l : List Message) (m : Message) → latest_bridge l ≡ some m → Sublistᴰ (m ∷ []) l
unfolding latest_bridge
latest_bridge-sublist [] m h = absurd (ground arith)
latest_bridge-sublist (n ∷ l) m h = elim (Option-cases (latest_bridge l)) [
  | inl e ↦
      let same : m ≡ n = ground (arith, h, e) in Sublistᴰ.cons-cons same (Sublistᴰ.nil-sublist l)
  | inr (k, e) ↦
      let same : k ≡ m = ground (arith, h, e) in
      Sublistᴰ.cons (latest_bridge-sublist l m (e ∙ ap (λ k. some k) same))
]

pub latest_bridge-users :
    (l : List Message) (m : Message)
    → latest_bridge l ≡ some m
    → keep is_user l ≡ []
    → is_user m ≡ false
unfolding latest_bridge keep
latest_bridge-users [] m h e = absurd (ground arith)
latest_bridge-users (n ∷ l) m h e = ground (arith, latest_bridge-users l m)

take_nil : (n : ℕ) → take {A = Message} n [] ≡ []
take_nil zero = refl
take_nil (suc n) = refl

pub take-split :
    (s b : ℕ) (l : List Message) → s ≤ b → take b l ≡ take s l ++ take (b - s) (drop s l)
take-split zero b l h = ap (λ k. take k l) (omega arith)
take-split (suc s) (suc b) [] h = sym (take_nil (suc b - suc s))
take-split (suc s) (suc b) (m ∷ l) h =
    let e : suc b - suc s ≡ b - s = omega arith in
    rw e (ap (λ (l : List Message). m ∷ l) (take-split s b l (omega arith)))
take-split (suc s) zero l h = absurd (omega arith)

pub gap-kept :
    (n i : ℕ) (c : List Message)
    → bridge_index (take n c) ≡ some i
    → Sublistᴰ (take (suc i) c ++ drop n c) c
      × (keep is_user (take (suc i) c ++ drop n c) ≡ keep is_user c)
gap-kept n i c e =
    let a : List Message = take n c in
    let b : List Message = drop n c in
    let parts : c ≡ a ++ b = take-drop n c in
    let users : keep is_user (take (suc i) (a ++ b) ++ b) ≡ keep is_user (a ++ b) =
      keep-append is_user (take (suc i) (a ++ b)) b
      ∙ ap (λ l. l ++ keep is_user b) (gap-users a b i e)
      ∙ sym (keep-append is_user a b) in
    (
      subst (λ (x : List Message). Sublistᴰ (take (suc i) x ++ b) x) (sym parts)
          (gap-sublist a b i e),
      subst (λ (x : List Message). keep is_user (take (suc i) x ++ b) ≡ keep is_user x) (sym parts)
          users,
    )
