-- ===== src/Agent/History/Fixed.antt =====
-- What the two passes of pkg/agent/context.go do to a history that is coherent already.
use suprclaw_engine.Prelude.{
  ◌≡◌, refl, sym, ◌∙◌, ap, Bool, true, false, ◌&&◌, not, List, [], ◌∷◌, ◌++◌, list_eq, nat_eq,
  is_nil, length, all, contains, arith, ==_self,
}
use mathlib.Core.Bool.{true≢false}
use suprclaw_engine.Prelude.Distinct.{distinct}
use suprclaw_engine.Prelude.Text.{Text}
use suprclaw_engine.Prelude.Unicode.{Unicode}
use suprclaw_engine.Providers.Message.{Message, ToolCall}
use suprclaw_engine.Agent.History.{
  call_kind, kind, accepts_call, call_ids, result_id, filter_results, tool_run, found_assistant,
  last_accepts, first_pass, keep_turn, second_pass, sanitize_history_for_provider,
}
use suprclaw_engine.Agent.History.Coherence.{
  all_tools, result_ids, Answers, IsCoherent, nil, single, turn, filter-found,
}

module _ ⦃u : Unicode⦄ where
  first_pass-tools :
      (acc results ms : List Message)
      → found_assistant acc ≡ true
      → is_nil results ≡ false
      → all_tools results ≡ true
      → ((acc : List Message) → last_accepts acc ≡ true → first_pass acc ms ≡ ms)
      → first_pass acc (results ++ ms) ≡ results ++ ms
  unfolding first_pass found_assistant
  first_pass-tools acc [] ms f n t ih = absurd (true≢false n)
  first_pass-tools acc (r ∷ []) ms f n t ih = ground (arith, ih (r ∷ acc))
  first_pass-tools acc (r ∷ s ∷ results) ms f n t ih =
      ground (arith, first_pass-tools (r ∷ acc) (s ∷ results) ms)

  -- A turn with calls has results.
  Answers-some :
      (m : Message) (results : List Message)
      → kind m ≡ call_kind
      → Answers m results
      → is_nil results ≡ false
  unfolding kind
  Answers-some m (r ∷ results) k a = refl
  Answers-some m [] k a = none_called (m.tool_calls) refl
    where
      called : m.tool_calls ≡ [] → ⊥
      called e = ground (arith, k, e)

      none_called : (calls : List ToolCall) → m.tool_calls ≡ calls → is_nil {A = Message} [] ≡ false
      none_called [] e = absurd (called e)
      none_called (tc ∷ calls) e = ground (arith, a.same tc.id, ==_self tc.id)

  first_pass-IsCoherent :
      (b : Bool) (h acc : List Message)
      → IsCoherent b h
      → b ≡ last_accepts acc
      → first_pass acc h ≡ h
  unfolding first_pass found_assistant
  first_pass-IsCoherent b h acc (nil _) e = refl
  first_pass-IsCoherent b h acc (single _ m ms s c) e =
      ground (arith, first_pass-IsCoherent (accepts_call (kind m)) ms (m ∷ acc) c refl)
  first_pass-IsCoherent b h acc (turn _ m results ms _ f k a c e') e =
      let rest =
        first_pass-tools (m ∷ acc) results ms (ground arith) (Answers-some m results k a) a.tools
          (λ acc' e. first_pass-IsCoherent true ms acc' c (sym e)) in
      rw e' (ground arith)

  tool_run-none : (b : Bool) (h : List Message) → IsCoherent b h → tool_run h ≡ []
  unfolding tool_run
  tool_run-none b h (nil _) = refl
  tool_run-none b h (single _ m ms s c) = ground arith
  tool_run-none b h (turn _ m results ms _ f k a c e) = rw e (ground arith)

  tool_run-append :
      (results ms : List Message)
      → all_tools results ≡ true
      → tool_run ms ≡ []
      → tool_run (results ++ ms) ≡ results
  unfolding tool_run
  tool_run-append [] ms t n = n
  tool_run-append (r ∷ results) ms t n = ground (arith, tool_run-append results ms)

  second_pass-append :
      (results ms : List Message) → second_pass (length results) (results ++ ms) ≡ second_pass 0 ms
  unfolding second_pass
  second_pass-append [] ms = refl
  second_pass-append (r ∷ results) ms = second_pass-append results ms

  filter-all :
      (expected matched : List Text) (run : List Message)
      → ((id : Text)
          → contains (result_ids run) id ≡ true
          → contains expected id && not (contains matched id) ≡ true)
      → distinct (result_ids run) ≡ true
      → (filter_results expected matched run).1 ≡ run
  unfolding filter_results
  filter-all expected matched [] h d = refl
  filter-all expected matched (m ∷ run) h d =
      let fresh = h (result_id m) (ground (arith, ==_self (result_id m))) in
      let rest =
        filter-all expected (result_id m ∷ matched) run (λ id c. ground (arith, h id, c))
          (ground arith) in
      rw fresh (ap (λ l. m ∷ l) rest)

  contains-all :
      (ids found : List Text)
      → ((id : Text) → contains ids id ≡ true → contains found id ≡ true)
      → all (contains found) ids ≡ true
  contains-all [] found h = refl
  contains-all (i ∷ ids) found h =
      ground (arith, h i, ==_self i, contains-all ids found (λ id c. h id (ground arith)))

  keep_turn-fixed :
      (m : Message) (results ms : List Message)
      → Answers m results
      → keep_turn m results ms ≡ m ∷ (results ++ ms)
  unfolding keep_turn
  keep_turn-fixed m results ms a =
      let filtered =
        filter-all (call_ids m) [] results (λ id c. ground (arith, a.same id)) a.once in
      let found = contains-all (call_ids m) (filter_results (call_ids m) [] results).0 (λ id c.
        filter-found (call_ids m) [] results id
        ∙ ap (λ l. contains (result_ids l) id) filtered
        ∙ a.same id
        ∙ c) in
      rw (found, filtered) refl

  second_pass-fixed : (b : Bool) (h : List Message) → IsCoherent b h → second_pass 0 h ≡ h
  unfolding second_pass
  second_pass-fixed b h (nil _) = refl
  second_pass-fixed b h (single _ m ms s c) =
      ground (arith, second_pass-fixed (accepts_call (kind m)) ms c)
  second_pass-fixed b h (turn _ m results ms _ f k a c e) =
      let run = tool_run-append results ms a.tools (tool_run-none true ms c) in
      let rest = second_pass-append results ms ∙ second_pass-fixed true ms c in
      rw (e, k, run, rest) (keep_turn-fixed m results ms a)

  -- A history that is coherent already is sent to a provider as it is.
  pub sanitize_history_for_provider_id :
      (h : List Message) → IsCoherent false h → sanitize_history_for_provider h ≡ h
  unfolding sanitize_history_for_provider
  sanitize_history_for_provider_id h c =
      rw (first_pass-IsCoherent false h [] c refl) (second_pass-fixed false h c)
