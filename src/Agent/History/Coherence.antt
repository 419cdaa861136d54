-- ===== src/Agent/History/Coherence.antt =====
-- What a history must be for a provider, and the results that the second pass of
-- pkg/agent/context.go keeps for a turn.
use suprclaw_engine.Prelude.{
  ◌≡◌, refl, sym, ◌∙◌, Bool, true, false, ◌&&◌, ◌||◌, not, List, [], ◌∷◌, ◌++◌, list_eq, nat_eq,
  map, all, contains, arith, ==_self, Bool-cases, inl, inr,
}
use mathlib.Core.Bool.{true≢false, false≢true}
use suprclaw_engine.Prelude.Distinct.{distinct}
use suprclaw_engine.Prelude.Text.{Text}
use suprclaw_engine.Prelude.Unicode.{Unicode}
use suprclaw_engine.Providers.Message.{Message}
use suprclaw_engine.Agent.History.{
  Kind, system_kind, tool_kind, call_kind, user_kind, plain_kind, kind, accepts_call, call_ids,
  result_id, filter_results,
}

abbrev pub is_tool : Kind → Bool
is_tool tool_kind = true
is_tool system_kind = false
is_tool call_kind = false
is_tool user_kind = false
is_tool plain_kind = false

-- A message that stands for itself.
abbrev pub is_single : Kind → Bool
is_single user_kind = true
is_single plain_kind = true
is_single tool_kind = false
is_single system_kind = false
is_single call_kind = false

abbrev pub all_tools : List Message → Bool
all_tools = all (λ m. is_tool (kind m))

module _ ⦃u : Unicode⦄ where
  abbrev pub result_ids : List Message → List Text
  result_ids = map result_id

  -- The results of a turn are tool messages, one for each id that the turn calls, and no others.
  pub record Answers (m : Message) (results : List Message) : Type 0 where
    pub tools : all_tools results ≡ true
    pub once : distinct (result_ids results) ≡ true
    pub same : (id : Text) → contains (result_ids results) id ≡ contains (call_ids m) id

  -- A history in which every tool message answers a turn directly before it, every call is
  -- answered, no system message is left, and a turn with calls comes directly behind a user or a
  -- tool message. The Boolean says whether such a turn may come first.
  pub data IsCoherent : Bool → List Message → Type 0 where
    nil : (may_call : Bool) → IsCoherent may_call []
    single :
        (may_call : Bool) (m : Message) (ms : List Message)
        → is_single (kind m) ≡ true
        → IsCoherent (accepts_call (kind m)) ms
        → IsCoherent may_call (m ∷ ms)
    turn :
        (may_call : Bool) (m : Message) (results ms l : List Message)
        → may_call ≡ true
        → kind m ≡ call_kind
        → Answers m results
        → IsCoherent true ms
        → l ≡ m ∷ (results ++ ms)
        → IsCoherent may_call l

  filter-tools :
      (expected matched : List Text) (run : List Message)
      → all_tools run ≡ true
      → all_tools (filter_results expected matched run).1 ≡ true
  unfolding filter_results
  filter-tools expected matched [] h = refl
  filter-tools expected matched (m ∷ run) h =
      elim (Bool-cases (contains expected (result_id m) && not (contains matched (result_id m)))) [
        | inl f ↦
            rw (filter_results, f)
              (ground (arith, filter-tools expected (result_id m ∷ matched) run))
        | inr f ↦ rw (filter_results, f) (filter-tools expected matched run (ground arith))
      ]

  -- What the filter finds is what was matched before and the ids of the results that it keeps.
  pub filter-found :
      (expected matched : List Text) (run : List Message) (id : Text)
      → contains (filter_results expected matched run).0 id
        ≡ (contains matched id || contains (result_ids (filter_results expected matched run).1) id)
  unfolding filter_results
  filter-found expected matched [] id = ground arith
  filter-found expected matched (m ∷ run) id =
      elim (Bool-cases (contains expected (result_id m) && not (contains matched (result_id m)))) [
        | inl f ↦
            rw (filter_results, f)
              (ground (arith, filter-found expected (result_id m ∷ matched) run id))
        | inr f ↦ rw (filter_results, f) (filter-found expected matched run id)
      ]

  filter-expected :
      (expected matched : List Text) (run : List Message) (id : Text)
      → contains (result_ids (filter_results expected matched run).1) id ≡ true
      → (contains expected id ≡ true) × (contains matched id ≡ false)
  unfolding filter_results
  filter-expected expected matched [] id h = ground arith
  filter-expected expected matched (m ∷ run) id h =
      elim (Bool-cases (contains expected (result_id m) && not (contains matched (result_id m)))) [
        | inl f ↦
            let h' = rw (filter_results, f) at h in
            ground (arith, h', filter-expected expected (result_id m ∷ matched) run id)
        | inr f ↦ filter-expected expected matched run id (rw (filter_results, f) at h)
      ]

  filter-matched :
      (expected matched : List Text) (run : List Message) (id : Text)
      → contains matched id ≡ true
      → contains (result_ids (filter_results expected matched run).1) id ≡ false
  filter-matched expected matched run id h =
      elim (Bool-cases (contains (result_ids (filter_results expected matched run).1) id)) [
        | inl f ↦
            let (e, n) = filter-expected expected matched run id f in
            absurd (true≢false (sym h ∙ n))
        | inr f ↦ f
      ]

  filter-distinct :
      (expected matched : List Text) (run : List Message)
      → distinct (result_ids (filter_results expected matched run).1) ≡ true
  unfolding filter_results
  filter-distinct expected matched [] = refl
  filter-distinct expected matched (m ∷ run) =
      elim (Bool-cases (contains expected (result_id m) && not (contains matched (result_id m)))) [
        | inl f ↦
            let here : contains (result_id m ∷ matched) (result_id m) ≡ true =
              ground (arith, ==_self (result_id m)) in
            let apart = filter-matched expected (result_id m ∷ matched) run (result_id m) here in
            rw (filter_results, f, apart) (filter-distinct expected (result_id m ∷ matched) run)
        | inr f ↦ rw (filter_results, f) (filter-distinct expected matched run)
      ]

  -- What the second pass keeps of a turn with all its results answers it.
  pub filter-Answers :
      (m : Message) (run : List Message)
      → all_tools run ≡ true
      → all (contains (filter_results (call_ids m) [] run).0) (call_ids m) ≡ true
      → Answers m (filter_results (call_ids m) [] run).1
  filter-Answers m run tools found = record {
    tools = filter-tools (call_ids m) [] run tools;
    once = filter-distinct (call_ids m) [] run;
    same = λ id. answers id;
  }
    where
      all-contains :
          (ids found : List Text) (id : Text)
          → all (contains found) ids ≡ true
          → contains ids id ≡ true
          → contains found id ≡ true
      all-contains [] found id a c = absurd (false≢true c)
      all-contains (i ∷ ids) found id a c = ground (arith, all-contains ids found id)

      answers :
          (id : Text)
          → contains (result_ids (filter_results (call_ids m) [] run).1) id
            ≡ contains (call_ids m) id
      answers id = elim (Bool-cases (contains (call_ids m) id)) [
        | inl c ↦
            let f = all-contains (call_ids m) (filter_results (call_ids m) [] run).0 id found c in
            sym (filter-found (call_ids m) [] run id) ∙ f ∙ sym c
        | inr c ↦
            elim (Bool-cases (contains (result_ids (filter_results (call_ids m) [] run).1) id)) [
              | inl r ↦ absurd (true≢false (sym (filter-expected (call_ids m) [] run id r).0 ∙ c))
              | inr r ↦ r ∙ sym c
            ]
      ]
