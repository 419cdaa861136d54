-- ===== src/Agent/Budget/Emergency/Laws.antt =====
-- What emergencyTrimMessages of pkg/agent/context_budget.go keeps of a conversation.
use suprclaw_engine.Prelude.{
  ℕ, zero, suc, ◌-◌, ◌≤◌, ◌<◌, ◌≡◌, refl, sym, ◌∙◌, ap, subst, Bool, true, false, ◌&&◌, not, List,
  [], ◌∷◌, ◌++◌, Option, none, some, leb, nat_eq, list_eq, is_nil, take, drop, keep, arith,
  Bool-cases, Option-cases, inl, inr,
}
use mathlib.Core.Bool.{true≢false}
use mathlib.Core.List.{Sublistᴰ}
use mathlib.Core.List.Sublistᴰ
use suprclaw_engine.Prelude.Slices.{take-drop}
use suprclaw_engine.Providers.Message.{Message}
use suprclaw_engine.Agent.History.Kept.{is_user}
use suprclaw_engine.Agent.Budget.Emergency.{
  latest_index, is_call, find_latest_user_message_index, latest_bridge, message_at, prev_valid,
  close_gap, fix_boundary,
}
use suprclaw_engine.Agent.Budget.Emergency.Users.{
  last, latest_user, last-cons, latest-none, latest-drop,
}
use suprclaw_engine.Agent.Budget.Emergency.Gap.{
  bridge_index, gap-kept, latest_bridge-append, latest_bridge-sublist, latest_bridge-users,
  take-split,
}

-- The conversation that is kept: some of the messages, in order, with the latest one of the user.
pub record IsKept (ms kept : List Message) : Type 0 where
  pub sublist : Sublistᴰ kept ms
  pub user : latest_user kept ≡ latest_user ms

-- What is kept from `start` on, of the messages behind the first one.
pub record IsTail (s : ℕ) (ms : List Message) : Type 0 where
  pub same : latest_user (drop s ms) ≡ latest_user ms
  pub none_left : is_nil (keep is_user (drop s ms)) ≡ true → keep is_user ms ≡ []

drop-sublist : (s : ℕ) (ms : List Message) → Sublistᴰ (drop s ms) ms
drop-sublist zero ms = Sublistᴰ.refl ms
drop-sublist (suc s) [] = Sublistᴰ.slnil
drop-sublist (suc s) (m ∷ ms) = Sublistᴰ.cons (drop-sublist s ms)

IsTail-IsKept : (s : ℕ) (ms : List Message) → IsTail s ms → IsKept ms (drop s ms)
IsTail-IsKept s ms t = record { sublist = drop-sublist s ms; user = t.same }

-- A message that is moved up to the turn.
bridged-sublist :
    (s b : ℕ) (ms : List Message) (m : Message)
    → s ≤ b
    → bridge_index (take (b - s) (drop s ms)) ≡ none
    → latest_bridge (take b ms) ≡ some m
    → Sublistᴰ (m ∷ drop s ms) ms
bridged-sublist s b ms m h e f =
    let found =
      sym (latest_bridge-append (take s ms) (take (b - s) (drop s ms)) e)
      ∙ ap latest_bridge (sym (take-split s b ms h))
      ∙ f in
    subst (Sublistᴰ (m ∷ drop s ms)) (sym (take-drop s ms))
      (Sublistᴰ.append (latest_bridge-sublist (take s ms) m found) (Sublistᴰ.refl (drop s ms)))

none-append : (a b : List Message) → keep is_user (a ++ b) ≡ [] → keep is_user a ≡ []
unfolding keep
none-append [] b h = refl
none-append (m ∷ a) b h = ground (arith, none-append a b)

bridged-user :
    (s b : ℕ) (ms : List Message) (m : Message)
    → IsTail s ms
    → latest_bridge (take b ms) ≡ some m
    → latest_user (m ∷ drop s ms) ≡ latest_user ms
unfolding keep
bridged-user s b ms m t f = elim (Bool-cases (is_nil (keep is_user (drop s ms)))) [
  | inr e ↦ ground (arith, last-cons m (keep is_user (drop s ms)) e, t.same)
  | inl e ↦
      let gone = t.none_left e in
      let before =
        none-append (take b ms) (drop b ms) (ap (keep is_user) (sym (take-drop b ms)) ∙ gone) in
      ground (arith, latest_bridge-users (take b ms) m f before, t.same)
]

close_gap-IsKept :
    (system : Message) (s b : ℕ) (ms : List Message)
    → s ≤ b
    → IsTail s ms
    → IsKept ms (close_gap (system ∷ ms) (suc b) (b - s) (drop s ms))
unfolding close_gap
close_gap-IsKept system s b ms h t = elim (Option-cases (bridge_index (take (b - s) (drop s ms)))) [
  | inl e ↦ elim (Option-cases (latest_bridge (take b ms))) [
    | inl f ↦ rw (close_gap, e, f) (IsTail-IsKept s ms t)
    | inr (m, f) ↦
        rw (close_gap, e, f)
          (record { sublist = bridged-sublist s b ms m h e f; user = bridged-user s b ms m t f })
  ]
  | inr (i, e) ↦
      let (sub, users) = gap-kept (b - s) i (drop s ms) e in
      rw (close_gap, e)
        (record { sublist = Sublistᴰ.trans sub (drop-sublist s ms); user = ap last users ∙ t.same })
]

none-append_right : (a b : List Message) → keep is_user (a ++ b) ≡ [] → keep is_user b ≡ []
unfolding keep
none-append_right [] b h = h
none-append_right (m ∷ a) b h = ground (arith, none-append_right a b)

IsTail-none : (s : ℕ) (ms : List Message) → keep is_user ms ≡ [] → IsTail s ms
IsTail-none s ms h =
    let behind =
      none-append_right (take s ms) (drop s ms) (ap (keep is_user) (sym (take-drop s ms)) ∙ h) in
    record { same = ap last (behind ∙ sym h); none_left = λ e. h }

-- The start is behind the system message and not behind the latest message of the user.
pub IsTail-start :
    (system : Message) (s : ℕ) (ms : List Message)
    → is_user system ≡ false
    → ((i : ℕ) → find_latest_user_message_index (system ∷ ms) ≡ some (suc i) → suc s ≤ suc i)
    → IsTail s ms
unfolding find_latest_user_message_index latest_index
IsTail-start system s ms n before = elim (Option-cases (latest_index (λ m ms. is_user m) ms)) [
  | inl e ↦ IsTail-none s ms (latest-none ms e)
  | inr (j, e) ↦
      let (same, found) = latest-drop s ms j e (omega (arith, before j (ground (arith, e)))) in
      record { same = same; none_left = λ h. absurd (true≢false (sym h ∙ found)) }
]

pub fix_boundary-IsKept :
    (system : Message) (s : ℕ) (ms : List Message) (boundary : Option ℕ)
    → ((b : ℕ) → boundary ≡ some b → 0 < b)
    → IsTail s ms
    → IsKept ms (fix_boundary (system ∷ ms) (suc s) (drop s ms) boundary)
unfolding fix_boundary
fix_boundary-IsKept system s ms none h t = IsTail-IsKept s ms t
fix_boundary-IsKept system s ms (some zero) h t = absurd (omega (arith, h 0 refl))
fix_boundary-IsKept system s ms (some (suc b)) h t =
    let local : ℕ = suc b - suc s in
    let is_turn : Bool = elim (message_at local (drop s ms)) [
      | none ↦ false
      | some m ↦ is_call m
    ] in
    elim (Bool-cases (leb (suc s) (suc b) && is_turn && not (prev_valid local (drop s ms)))) [
      | inl e ↦
          let same : b - s ≡ local = omega arith in
          rw (fix_boundary, e)
            (subst (λ k. IsKept ms (close_gap (system ∷ ms) (suc b) k (drop s ms))) same
              (close_gap-IsKept system s b ms (ground (arith, e)) t))
      | inr e ↦ rw (fix_boundary, e) (IsTail-IsKept s ms t)
    ]
