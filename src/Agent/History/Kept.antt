-- ===== src/Agent/History/Kept.antt =====
-- What sanitizeHistoryForProvider of pkg/agent/context.go keeps of a history.
use suprclaw_engine.Prelude.{
  ℕ, zero, suc, ◌≡◌, refl, sym, ◌∙◌, ap, subst, Bool, true, false, ◌&&◌, not, List, [], ◌∷◌, ◌++◌,
  ◌==◌, nat_eq, list_eq, length, drop, all, contains, keep, arith, Bool-cases, inl, inr,
}
use mathlib.Core.List.{Sublistᴰ}
use mathlib.Core.List.Sublistᴰ
use suprclaw_engine.Prelude.Slices.{keep-append}
use suprclaw_engine.Prelude.Text.{Text, codes}
use suprclaw_engine.Prelude.Unicode.{Unicode}
use suprclaw_engine.Providers.Message.{Message}
use suprclaw_engine.Agent.History.{
  Kind, system_kind, tool_kind, call_kind, user_kind, plain_kind, kind, keeps, first_pass, tool_run,
  call_ids, result_id, filter_results, keep_turn, emit, skip_after, second_pass,
  sanitize_history_for_provider,
}
use suprclaw_engine.Agent.History.Coherence.{all_tools}
use suprclaw_engine.Agent.History.Linked.{tool_run-tools}

abbrev pub is_user : Message → Bool
is_user m = m.role == codes "user"

abbrev pub is_user_kind : Kind → Bool
is_user_kind user_kind = true
is_user_kind system_kind = false
is_user_kind tool_kind = false
is_user_kind call_kind = false
is_user_kind plain_kind = false

pub is_user-kind : (m : Message) → is_user m ≡ is_user_kind (kind m)
unfolding kind
is_user-kind m = ground arith

first_pass-sublist : (acc h : List Message) → Sublistᴰ (first_pass acc h) h
unfolding first_pass
first_pass-sublist acc [] = Sublistᴰ.slnil
first_pass-sublist acc (m ∷ h) = elim (Bool-cases (keeps (kind m) acc)) [
  | inl e ↦ rw e (Sublistᴰ.cons-cons refl (first_pass-sublist (m ∷ acc) h))
  | inr e ↦ rw e (Sublistᴰ.cons (first_pass-sublist acc h))
]

first_pass-users : (acc h : List Message) → keep is_user (first_pass acc h) ≡ keep is_user h
unfolding first_pass keep
first_pass-users acc [] = refl
first_pass-users acc (m ∷ h) =
    ground (arith, is_user-kind m, first_pass-users (m ∷ acc) h, first_pass-users acc h)

tools-users : (l : List Message) → all_tools l ≡ true → keep is_user l ≡ []
unfolding keep
tools-users [] h = refl
tools-users (m ∷ l) h = ground (arith, is_user-kind m, tools-users l)

run-drop : (l : List Message) → l ≡ tool_run l ++ drop (length (tool_run l)) l
unfolding tool_run
run-drop [] = refl
run-drop (m ∷ l) = ground (arith, run-drop l)

module _ ⦃u : Unicode⦄ where
  filter-sublist :
      (expected matched : List Text) (run : List Message)
      → Sublistᴰ (filter_results expected matched run).1 run
  unfolding filter_results
  filter-sublist expected matched [] = Sublistᴰ.slnil
  filter-sublist expected matched (m ∷ run) =
      elim (Bool-cases (contains expected (result_id m) && not (contains matched (result_id m)))) [
        | inl e ↦
            rw e (Sublistᴰ.cons-cons refl (filter-sublist expected (result_id m ∷ matched) run))
        | inr e ↦ rw e (Sublistᴰ.cons (filter-sublist expected matched run))
      ]

  filter-users :
      (expected matched : List Text) (run : List Message)
      → all_tools run ≡ true
      → keep is_user (filter_results expected matched run).1 ≡ []
  unfolding filter_results keep
  filter-users expected matched [] h = refl
  filter-users expected matched (m ∷ run) h = ground (
    arith,
    is_user-kind m,
    filter-users expected (result_id m ∷ matched) run,
    filter-users expected matched run,
  )

  turn-sublist :
      (m : Message) (run rest ms : List Message)
      → Sublistᴰ rest ms
      → Sublistᴰ (keep_turn m run rest) (m ∷ (run ++ ms))
  unfolding keep_turn
  turn-sublist m run rest ms h =
      elim (Bool-cases (all (contains (filter_results (call_ids m) [] run).0) (call_ids m))) [
        | inl e ↦
            rw e (Sublistᴰ.cons-cons refl (Sublistᴰ.append (filter-sublist (call_ids m) [] run) h))
        | inr e ↦ rw e (Sublistᴰ.cons (Sublistᴰ.append (Sublistᴰ.nil-sublist run) h))
      ]

  turn-users :
      (m : Message) (run rest : List Message)
      → kind m ≡ call_kind
      → all_tools run ≡ true
      → keep is_user (keep_turn m run rest) ≡ keep is_user rest
  unfolding keep_turn keep
  turn-users m run rest k h = ground (
    arith,
    is_user-kind m,
    k,
    filter-users (call_ids m) [] run,
    keep-append is_user (filter_results (call_ids m) [] run).1 rest,
  )

  emit-sublist :
      (k : Kind) (m : Message) (ms rest : List Message)
      → Sublistᴰ rest (drop (skip_after k (tool_run ms)) ms)
      → Sublistᴰ (emit k m (tool_run ms) rest) (m ∷ ms)
  emit-sublist system_kind m ms rest h = Sublistᴰ.cons-cons refl h
  emit-sublist tool_kind m ms rest h = Sublistᴰ.cons h
  emit-sublist user_kind m ms rest h = Sublistᴰ.cons-cons refl h
  emit-sublist plain_kind m ms rest h = Sublistᴰ.cons-cons refl h
  emit-sublist call_kind m ms rest h =
      subst (λ l. Sublistᴰ (keep_turn m (tool_run ms) rest) (m ∷ l)) (sym (run-drop ms))
        (turn-sublist m (tool_run ms) rest (drop (length (tool_run ms)) ms) h)

  second_pass-sublist : (n : ℕ) (l : List Message) → Sublistᴰ (second_pass n l) (drop n l)
  unfolding second_pass
  second_pass-sublist zero [] = Sublistᴰ.slnil
  second_pass-sublist (suc n) [] = Sublistᴰ.slnil
  second_pass-sublist (suc n) (m ∷ l) = second_pass-sublist n l
  second_pass-sublist zero (m ∷ l) =
      emit-sublist (kind m) m l _ (second_pass-sublist (skip_after (kind m) (tool_run l)) l)

  emit-users :
      (k : Kind) (m : Message) (ms rest : List Message)
      → kind m ≡ k
      → keep is_user rest ≡ keep is_user (drop (skip_after k (tool_run ms)) ms)
      → keep is_user (emit k m (tool_run ms) rest) ≡ keep is_user (m ∷ ms)
  unfolding keep
  emit-users system_kind m ms rest k h = ground arith
  emit-users tool_kind m ms rest k h = ground (arith, is_user-kind m)
  emit-users user_kind m ms rest k h = ground arith
  emit-users plain_kind m ms rest k h = ground arith
  emit-users call_kind m ms rest k h =
      let behind = drop (length (tool_run ms)) ms in
      let parts = ap (keep is_user) (run-drop ms) ∙ keep-append is_user (tool_run ms) behind in
      ground (
        arith,
        is_user-kind m,
        turn-users m (tool_run ms) rest k (tool_run-tools ms),
        parts,
        tools-users (tool_run ms) (tool_run-tools ms),
      )

  second_pass-users :
      (n : ℕ) (l : List Message) → keep is_user (second_pass n l) ≡ keep is_user (drop n l)
  unfolding second_pass
  second_pass-users zero [] = refl
  second_pass-users (suc n) [] = refl
  second_pass-users (suc n) (m ∷ l) = second_pass-users n l
  second_pass-users zero (m ∷ l) =
      emit-users (kind m) m l _ refl (second_pass-users (skip_after (kind m) (tool_run l)) l)

  pub sanitize_history_for_provider-sublist :
      (h : List Message) → Sublistᴰ (sanitize_history_for_provider h) h
  unfolding sanitize_history_for_provider
  sanitize_history_for_provider-sublist h =
      Sublistᴰ.trans (second_pass-sublist 0 (first_pass [] h)) (first_pass-sublist [] h)

  pub sanitize_history_for_provider-users :
      (h : List Message) → keep is_user (sanitize_history_for_provider h) ≡ keep is_user h
  unfolding sanitize_history_for_provider
  sanitize_history_for_provider-users h =
      second_pass-users 0 (first_pass [] h) ∙ first_pass-users [] h

  -- Nothing is made up or moved: the messages that are sent stand in the history in the same order,
  -- and every message of the user is among them.
  pub sanitize_history_for_provider-kept :
      (h : List Message)
      → Sublistᴰ (sanitize_history_for_provider h) h
        × (keep is_user (sanitize_history_for_provider h) ≡ keep is_user h)
  sanitize_history_for_provider-kept h =
      (sanitize_history_for_provider-sublist h, sanitize_history_for_provider-users h)
