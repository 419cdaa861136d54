-- ===== src/Agent/History/Alike.antt =====
-- Histories that differ in what their messages say only.
use suprclaw_engine.Prelude.{
  ◌≡◌, refl, sym, ◌∙◌, ap, subst, Bool, true, List, [], ◌∷◌, ◌++◌, contains, list_eq, nat_eq, arith,
}
use suprclaw_engine.Prelude.Text.{Text}
use suprclaw_engine.Prelude.Unicode.{Unicode}
use suprclaw_engine.Providers.Message.{Message}
use suprclaw_engine.Agent.History.{call_kind, kind, accepts_call, call_ids}
use suprclaw_engine.Agent.History.Coherence.{
  is_single, all_tools, result_ids, Answers, IsCoherent, nil, single, turn,
}

abbrev pub with_content : Message → Text → Message
with_content m text = record {
  role = m.role;
  content = text;
  media = m.media;
  reasoning_content = m.reasoning_content;
  usage = m.usage;
  tool_calls = m.tool_calls;
  tool_call_id = m.tool_call_id;
}

-- The second message is the first one with another content.
abbrev pub Resays : Message → Message → Type 0
Resays m n = n ≡ with_content m n.content

abbrev pub Alike : List Message → List Message → Type 0
Alike [] [] = Unit
Alike [] (n ∷ ns) = ⊥
Alike (m ∷ ms) [] = ⊥
Alike (m ∷ ms) (n ∷ ns) = Resays m n × Alike ms ns

pub Alike-self : (ms : List Message) → Alike ms ms
Alike-self [] = tt
Alike-self (m ∷ ms) = (refl, Alike-self ms)

same_kind : (m n : Message) → Resays m n → kind n ≡ kind m
unfolding kind
same_kind m n r = ap kind r

Alike-split :
    (a b l : List Message)
    → Alike (a ++ b) l
    → (a' : List Message) × (b' : List Message) × (l ≡ a' ++ b') × Alike a a' × Alike b b'
Alike-split [] b l h = ([], l, refl, tt, h)
Alike-split (m ∷ a) b [] h = elim h [ ]
Alike-split (m ∷ a) b (n ∷ l) (r, h) =
    let (a', b', e, s, t) = Alike-split a b l h in
    (n ∷ a', b', ap (λ (l : List Message). n ∷ l) e, (r, s), t)

Alike-tools : (a b : List Message) → Alike a b → all_tools b ≡ all_tools a
Alike-tools [] [] h = refl
Alike-tools [] (n ∷ b) h = elim h [ ]
Alike-tools (m ∷ a) [] h = elim h [ ]
Alike-tools (m ∷ a) (n ∷ b) (r, h) = ground (arith, same_kind m n r, Alike-tools a b h)

module _ ⦃u : Unicode⦄ where
  Alike-result_ids : (a b : List Message) → Alike a b → result_ids b ≡ result_ids a
  Alike-result_ids [] [] h = refl
  Alike-result_ids [] (n ∷ b) h = elim h [ ]
  Alike-result_ids (m ∷ a) [] h = elim h [ ]
  Alike-result_ids (m ∷ a) (n ∷ b) (r, h) =
      ground (arith, ap (λ (m : Message). m.tool_call_id) r, Alike-result_ids a b h)

  Alike-Answers :
      (m n : Message) (a b : List Message) → Resays m n → Alike a b → Answers m a → Answers n b
  Alike-Answers m n a b r h answers = record {
    tools = Alike-tools a b h ∙ answers.tools;
    once = rw (Alike-result_ids a b h) answers.once;
    same = λ id.
        ap (λ ids. contains ids id) (Alike-result_ids a b h)
        ∙ answers.same id
        ∙ ap (λ m. contains (call_ids m) id) (sym r);
  }

  turn-Alike :
      (c : Bool) (m : Message) (results ms b : List Message)
      → c ≡ true
      → kind m ≡ call_kind
      → Answers m results
      → ((ms' : List Message) → Alike ms ms' → IsCoherent true ms')
      → Alike (m ∷ (results ++ ms)) b
      → IsCoherent c b
  turn-Alike c m results ms [] may k answers ih h = elim h [ ]
  turn-Alike c m results ms (n ∷ l) may k answers ih (r, h) =
      let (results', ms', e, s, t) = Alike-split results ms l h in
      turn c n results' ms' (n ∷ l) may (same_kind m n r ∙ k)
        (Alike-Answers m n results results' r s answers) (ih ms' t)
        (ap (λ (l : List Message). n ∷ l) e)

  -- Coherence reads the roles and the ids only.
  pub Alike-IsCoherent :
      (c : Bool) (a b : List Message) → IsCoherent c a → Alike a b → IsCoherent c b
  Alike-IsCoherent c _ [] (nil _) h = nil c
  Alike-IsCoherent c _ (n ∷ b) (nil _) h = elim h [ ]
  Alike-IsCoherent c _ [] (single _ m ms s t) h = elim h [ ]
  Alike-IsCoherent c _ (n ∷ b) (single _ m ms s t) (r, h) =
      single c n b (ap is_single (same_kind m n r) ∙ s) (
        subst (λ k. IsCoherent (accepts_call k) b) (sym (same_kind m n r))
          (Alike-IsCoherent (accepts_call (kind m)) ms b t h))
  Alike-IsCoherent c a b (turn _ m results ms _ may k answers t e) h =
      turn-Alike c m results ms b may k answers (λ ms' h'. Alike-IsCoherent true ms ms' t h')
        (subst (λ l. Alike l b) e h)
