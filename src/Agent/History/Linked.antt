-- ===== src/Agent/History/Linked.antt =====
-- What the two passes of pkg/agent/context.go leave of a history.
use suprclaw_engine.Prelude.{
  ℕ, zero, suc, ◌≤◌, ◌≡◌, refl, sym, ap, subst, Bool, true, false, ◌&&◌, List, [], ◌∷◌, list_eq,
  nat_eq, length, drop, all, contains, arith, Bool-cases, inl, inr,
}
use mathlib.Core.Bool.{false≢true}
use suprclaw_engine.Prelude.Slices.{length-drop}
use suprclaw_engine.Prelude.Unicode.{Unicode}
use suprclaw_engine.Providers.Message.{Message}
use suprclaw_engine.Agent.History.{
  Kind, system_kind, tool_kind, call_kind, user_kind, plain_kind, kind, accepts_call, call_ids,
  filter_results, tool_run, found_assistant, last_accepts, first_pass, keep_turn, emit, skip_after,
  second_pass, sanitize_history_for_provider,
}
use suprclaw_engine.Agent.History.Coherence.{
  is_single, all_tools, IsCoherent, nil, single, turn, filter-Answers,
}

abbrev accepts_tool : Kind → Bool
accepts_tool call_kind = true
accepts_tool tool_kind = true
accepts_tool system_kind = false
accepts_tool user_kind = false
accepts_tool plain_kind = false

abbrev may_come : Kind → Bool → Bool → Bool
may_come system_kind may_call may_tool = false
may_come tool_kind may_call may_tool = may_tool
may_come call_kind may_call may_tool = may_call
may_come user_kind may_call may_tool = true
may_come plain_kind may_call may_tool = true

-- Each message may stand behind the one before it.
linked : Bool → Bool → List Message → Bool
linked may_call may_tool [] = true
linked may_call may_tool (m ∷ ms) =
    may_come (kind m) may_call may_tool && linked (accepts_call (kind m)) (accepts_tool (kind m)) ms

first_pass-linked :
    (acc h : List Message)
    → linked (last_accepts acc) (found_assistant acc) (first_pass acc h) ≡ true
unfolding linked first_pass found_assistant
first_pass-linked acc [] = refl
first_pass-linked acc (m ∷ h) =
    ground (arith, first_pass-linked (m ∷ acc) h, first_pass-linked acc h)

pub tool_run-tools : (l : List Message) → all_tools (tool_run l) ≡ true
unfolding tool_run
tool_run-tools [] = refl
tool_run-tools (m ∷ l) = ground (arith, tool_run-tools l)

module _ ⦃u : Unicode⦄ where
  second_pass-skip : (n : ℕ) (l : List Message) → second_pass n l ≡ second_pass 0 (drop n l)
  unfolding second_pass
  second_pass-skip zero l = refl
  second_pass-skip (suc n) [] = refl
  second_pass-skip (suc n) (m ∷ l) = second_pass-skip n l

linked-call :
    (may_call : Bool) (l : List Message)
    → linked may_call false l ≡ true
    → linked true false l ≡ true
unfolding linked
linked-call may_call [] h = refl
linked-call may_call (m ∷ l) h = ground arith

-- Behind the tool messages of a turn none is left, and a turn may come.
linked-run :
    (may_call : Bool) (l : List Message)
    → linked may_call true l ≡ true
    → linked true false (drop (length (tool_run l)) l) ≡ true
unfolding linked tool_run
linked-run may_call [] h = refl
linked-run may_call (m ∷ l) h = ground (arith, linked-run true l)

module _ ⦃u : Unicode⦄ where
  IsCoherent-call :
      (may_call : Bool) (l : List Message)
      → may_call ≡ true
      → IsCoherent true l
      → IsCoherent may_call l
  IsCoherent-call may_call l h c = subst (λ b. IsCoherent b l) (sym h) c

  keep_turn-IsCoherent :
      (may_call : Bool) (m : Message) (run rest : List Message)
      → may_call ≡ true
      → kind m ≡ call_kind
      → all_tools run ≡ true
      → IsCoherent true rest
      → IsCoherent may_call (keep_turn m run rest)
  unfolding keep_turn
  keep_turn-IsCoherent may_call m run rest h k tools c =
      elim (Bool-cases (all (contains (filter_results (call_ids m) [] run).0) (call_ids m))) [
        | inl found ↦
            rw (keep_turn, found)
              (turn may_call m (filter_results (call_ids m) [] run).1 rest _ h k
                (filter-Answers m run tools found) c refl)
        | inr missing ↦ rw (keep_turn, missing) (IsCoherent-call may_call rest h c)
      ]

  emit-IsCoherent :
      (k : Kind) (may_call : Bool) (m : Message) (ms : List Message)
      → kind m ≡ k
      → may_come k may_call false && linked (accepts_call k) (accepts_tool k) ms ≡ true
      → ((b : Bool) (l : List Message)
          → length l ≤ length ms
          → linked b false l ≡ true
          → IsCoherent b (second_pass 0 l))
      → IsCoherent may_call (emit k m (tool_run ms) (second_pass (skip_after k (tool_run ms)) ms))
  emit-IsCoherent system_kind may_call m ms e h ih = absurd (false≢true h)
  emit-IsCoherent tool_kind may_call m ms e h ih = absurd (false≢true h)
  emit-IsCoherent user_kind may_call m ms e h ih = single may_call m _ (ap is_single e) (
      subst (λ k. IsCoherent (accepts_call k) (second_pass 0 ms)) (sym e)
        (ih true ms (omega arith) h))
  emit-IsCoherent plain_kind may_call m ms e h ih = single may_call m _ (ap is_single e) (
      subst (λ k. IsCoherent (accepts_call k) (second_pass 0 ms)) (sym e)
        (ih false ms (omega arith) h))
  emit-IsCoherent call_kind may_call m ms e h ih =
      let rest = drop (length (tool_run ms)) ms in
      let linked_rest = linked-run false ms (ground arith) in
      let coherent =
        ih true rest (omega (arith, length-drop (length (tool_run ms)) ms)) linked_rest in
      keep_turn-IsCoherent may_call m (tool_run ms) _ (ground arith) e (tool_run-tools ms)
        (subst (IsCoherent true) (sym (second_pass-skip (length (tool_run ms)) ms)) coherent)

  second_pass-IsCoherent :
      (n : ℕ) (may_call : Bool) (l : List Message)
      → length l ≤ n
      → linked may_call false l ≡ true
      → IsCoherent may_call (second_pass 0 l)
  unfolding second_pass linked
  second_pass-IsCoherent n may_call [] b h = nil may_call
  second_pass-IsCoherent zero may_call (m ∷ ms) b h = absurd (omega arith)
  second_pass-IsCoherent (suc n) may_call (m ∷ ms) b h =
      emit-IsCoherent (kind m) may_call m ms refl h
        (λ call l shorter l_linked. second_pass-IsCoherent n call l (omega arith) l_linked)

  -- Whatever the history, what is sent to a provider is coherent: every tool message answers a call
  -- of the turn directly before it, no two answer the same call, every call that is left is
  -- answered, no system message is left, and a turn with calls is neither the first message nor
  -- behind an assistant message without calls.
  pub sanitize_history_for_provider-IsCoherent :
      (h : List Message) → IsCoherent false (sanitize_history_for_provider h)
  unfolding sanitize_history_for_provider found_assistant
  sanitize_history_for_provider-IsCoherent h =
      second_pass-IsCoherent (length (first_pass [] h)) false (first_pass [] h) (omega arith)
        (first_pass-linked [] h)
