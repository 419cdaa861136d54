-- ===== src/Agent/Summary/Laws.antt =====
-- What summarizeSession of pkg/agent/loop.go leaves of a session.
use suprclaw_engine.Prelude.{
  suc, ◌+◌, ◌++◌, ap, length-append, ℕ, ◌-◌, ◌≤◌, ◌<◌, ◌≡◌, inl, inr, refl, sym, ◌∙◌, Bool, true,
  false, ◌&&◌, ◌||◌, List, [], ◌∷◌, ltb, leb, nat_eq, list_eq, is_nil, length, length-take_le, take,
  drop, any, keep, arith, Bool-cases,
}
use mathlib.Core.Bool.{true≢false}
use mathlib.Core.List.{append_assoc}
use suprclaw_engine.Prelude.Slices.{length-drop, take-drop}
use suprclaw_engine.Prelude.Text.{Text}
use suprclaw_engine.Prelude.Unicode.{Unicode}
use suprclaw_engine.Providers.Message.{Message}
use suprclaw_engine.Agent.Budget.Compact.{TurnSession}
use suprclaw_engine.Agent.Summary.{
  Reply, failed, replied, summarize_parts, final_summary, is_valid, is_conversation, is_oversized,
  omitted_note, with_summary, truncated, merged_summary, to_summarize, valid_messages, new_summary,
  summarize_session,
}

drop-append : (l m : List Message) (k : ℕ) → drop (length l + k) (l ++ m) ≡ drop k m
drop-append [] m k = ap (λ n. drop n m) (omega arith)
drop-append (x ∷ l) m k =
    let one_more : length (x ∷ l) + k ≡ suc (length l + k) = omega arith in
    ap (λ n. drop n (x ∷ (l ++ m))) one_more ∙ drop-append l m k

-- A session to which messages were appended.
abbrev pub appended : TurnSession → List Message → TurnSession
appended session more = record session { history = session.history ++ more }

last_of_appended :
    (l more late : List Message)
    → 4 < length l
    → drop (length ((l ++ more) ++ late) - 4) ((l ++ more) ++ late)
      ≡ drop (length (more ++ late)) (drop (length l - 4) l ++ (more ++ late))
last_of_appended l more late h =
    let n = length l - 4 in
    let m = more ++ late in
    let split : (l ++ more) ++ late ≡ take n l ++ (drop n l ++ m) =
      append_assoc l more late
      ∙ ap (λ k. k ++ m) (take-drop n l)
      ∙ append_assoc (take n l) (drop n l) m in
    let size : length ((l ++ more) ++ late) - 4 ≡ length (take n l) + length m = omega (
      arith,
      length-append (l ++ more) late,
      length-append l more,
      length-append more late,
      length-drop n l,
      ap length (take-drop n l),
      length-append (take n l) (drop n l),
    ) in
    ap (λ k. drop k ((l ++ more) ++ late)) size
    ∙ ap (drop (length (take n l) + length m)) split
    ∙ drop-append (take n l) (drop n l ++ m) (length m)

module _ ⦃u : Unicode⦄ {W : Type 0} (chat : W → Text → W × Reply) where
  -- What may become of a session to which others append `more` while the model is asked, and `late`
  -- before the history is truncated.
  pub data IsSummarized (session : TurnSession) (more late : List Message)
      : TurnSession → Type 0 where
    untouched : (after : TurnSession) → after ≡ session → IsSummarized session more late after
    unanswered :
        (after : TurnSession) → after ≡ appended session more → IsSummarized session more late after
    summarized :
        (after : TurnSession) (recent : List Message)
        → session.history ≡ to_summarize session ++ recent
        → length recent ≡ 4
        → after.history ≡ drop (length (more ++ late)) (recent ++ (more ++ late))
        → length after.history ≡ 4
        → is_nil after.summary ≡ false
        → IsSummarized session more late after

  with_summary-IsSummarized :
      (between : TurnSession → TurnSession) (session : TurnSession) (more late : List Message)
      (summary : Text)
      → ((s : TurnSession) → between s ≡ appended s late)
      → 4 < length session.history
      → IsSummarized session more late (with_summary between (appended session more) summary)
  with_summary-IsSummarized between session more late summary b h =
      let l = session.history in
      let n = length l - 4 in
      let size : length (drop n l) ≡ 4 = omega (arith, length-drop n l) in
      let last = last_of_appended l more late h in
      let four : length (drop (length ((l ++ more) ++ late) - 4) ((l ++ more) ++ late)) ≡ 4 =
        omega (
          arith,
          length-drop (length ((l ++ more) ++ late) - 4) ((l ++ more) ++ late),
          length-append (l ++ more) late,
          length-append l more,
        ) in
      elim (Bool-cases (is_nil summary)) [
        | inl e ↦ rw e (unanswered (appended session more) refl)
        | inr e ↦
            rw (e, b (record { summary = summary; history = l ++ more }))
              (summarized
                (record {
                  summary = summary;
                  history = drop (length ((l ++ more) ++ late) - 4) ((l ++ more) ++ late);
                })
                (drop n l) (take-drop n l) size last four e)
      ]

  -- If others only append messages to a session while the model is asked and before the history is
  -- truncated, then the session is left as it is, or as it is with those messages, or with a summary
  -- that is not empty and exactly 4 messages: the last 4 of those that were kept back from the
  -- summary, which are 4, followed by those appended.
  pub summarize_session-IsSummarized :
      (meanwhile : W → TurnSession → TurnSession) (between : TurnSession → TurnSession)
      (context_window : ℕ) (w : W) (session : TurnSession) (more late : List Message)
      → ((w' : W) → meanwhile w' session ≡ appended session more)
      → ((s : TurnSession) → between s ≡ appended s late)
      → IsSummarized session more late
          (summarize_session chat meanwhile between context_window w session).1
  unfolding summarize_session
  summarize_session-IsSummarized meanwhile between context_window w session more late a b =
      let (w', summary) = new_summary chat context_window w session in
      elim (Bool-cases
        (leb (length session.history) 4 || is_nil (valid_messages context_window session))) [
          | inl e ↦ rw (summarize_session, e) (untouched session refl)
          | inr e ↦
              rw (summarize_session, e, a (new_summary chat context_window w session).0)
                (with_summary-IsSummarized between session more late
                  (new_summary chat context_window w session).1 b (ground (arith, e)))
        ]

  merged_summary-some : (reply : Reply) (s1 s2 : Text) → is_nil (merged_summary reply s1 s2) ≡ false
  merged_summary-some failed [] s2 = refl
  merged_summary-some failed (c ∷ s1) s2 = refl
  merged_summary-some (replied []) [] s2 = refl
  merged_summary-some (replied []) (c ∷ s1) s2 = refl
  merged_summary-some (replied (d ∷ content)) s1 s2 = refl

  summarize_parts-some :
      (w : W) (messages : List Message) → is_nil (summarize_parts chat w messages).1 ≡ false
  unfolding summarize_parts
  summarize_parts-some w messages = merged_summary-some _ _ _

  note-some :
      (omitted : Bool) (s : Text) → is_nil s ≡ false → is_nil (omitted_note omitted s) ≡ false
  note-some omitted [] h = absurd (true≢false h)
  note-some true (c ∷ s) h = refl
  note-some false (c ∷ s) h = refl

  length-keep_le : (p : Message → Bool) (l : List Message) → length (keep p l) ≤ length l
  unfolding keep
  length-keep_le p [] = omega arith
  length-keep_le p (m ∷ l) = ground (arith, length-keep_le p l)

  -- What a session with more than 10 messages to sum up becomes.
  abbrev long_result :
      (W → TurnSession → TurnSession)
      → (TurnSession → TurnSession)
      → ℕ
      → W
      → TurnSession
      → W × TurnSession
  long_result meanwhile between context_window w session =
      let (w', summary) = summarize_parts chat w (valid_messages context_window session) in
      let omitted =
        any (λ m. is_conversation m && is_oversized context_window m) (to_summarize session) in
      (
        w',
        truncated
            (between (record (meanwhile w' session) { summary = omitted_note omitted summary })),
      )

  long-new_summary :
      (context_window : ℕ) (w : W) (session : TurnSession)
      → 10 < length (valid_messages context_window session)
      → new_summary chat context_window w session ≡ (
        (summarize_parts chat w (valid_messages context_window session)).0,
        omitted_note
            (any (λ m. is_conversation m && is_oversized context_window m) (to_summarize session))
            (summarize_parts chat w (valid_messages context_window session)).1,
      )
  unfolding new_summary final_summary
  long-new_summary context_window w session h =
      let long : ltb 10 (length (valid_messages context_window session)) ≡ true = ground arith in
      rw (new_summary, final_summary, long) refl

  many :
      (context_window : ℕ) (session : TurnSession)
      → 10 < length (valid_messages context_window session)
      → leb (length session.history) 4 || is_nil (valid_messages context_window session) ≡ false
  many context_window session h =
      let n = length session.history - 4 in
      let fewer = length-keep_le (is_valid context_window) (take n session.history) in
      ground (
        arith,
        fewer,
        length-take_le n session.history,
        positive (valid_messages context_window session),
      )
    where
      positive : (l : List Message) → 0 < length l → is_nil l ≡ false
      positive [] p = absurd (omega arith)
      positive (m ∷ l) p = refl

  long-summarize_session :
      (meanwhile : W → TurnSession → TurnSession) (between : TurnSession → TurnSession)
      (context_window : ℕ) (w : W) (session : TurnSession)
      → 10 < length (valid_messages context_window session)
      → summarize_session chat meanwhile between context_window w session
        ≡ long_result meanwhile between context_window w session
  unfolding summarize_session
  long-summarize_session meanwhile between context_window w session h =
      let some_text =
        note-some
          (any (λ m. is_conversation m && is_oversized context_window m) (to_summarize session)) _
          (summarize_parts-some w (valid_messages context_window session)) in
      rw
        (
          summarize_session,
          many context_window session h,
          long-new_summary context_window w session h,
          some_text,
        )
        refl

  -- Where more than 10 messages are summed up, the summary that the session had has no part in the
  -- new one: whatever it was, the session and the calls of the model are the same, if what others do
  -- to the history meanwhile does not depend on it.
  pub summarize_session-forgets :
      (meanwhile : W → TurnSession → TurnSession) (between : TurnSession → TurnSession)
      (context_window : ℕ) (w : W) (before other : Text) (history : List Message)
      → ((w' : W)
          → (meanwhile w' (record { summary = before; history = history })).history
            ≡ (meanwhile w' (record { summary = other; history = history })).history)
      → 10 < length (valid_messages context_window (record { summary = before; history = history }))
      → summarize_session chat meanwhile between context_window w
          (record { summary = before; history = history })
        ≡ summarize_session chat meanwhile between context_window w
            (record { summary = other; history = history })
  unfolding summarize_session
  summarize_session-forgets meanwhile between context_window w before other history same h =
      let s : TurnSession = record { summary = before; history = history } in
      let t : TurnSession = record { summary = other; history = history } in
      let w' = (summarize_parts chat w (valid_messages context_window s)).0 in
      let omitted =
        any (λ m. is_conversation m && is_oversized context_window m) (to_summarize s) in
      let summary =
        omitted_note omitted (summarize_parts chat w (valid_messages context_window s)).1 in
      let kept : long_result meanwhile between context_window w s
          ≡ long_result meanwhile between context_window w t =
        ap
          (λ (l : List Message).
            (w', truncated (between (record { summary = summary; history = l }))))
          (same w') in
      long-summarize_session meanwhile between context_window w s h
      ∙ kept
      ∙ sym (long-summarize_session meanwhile between context_window w t h)
