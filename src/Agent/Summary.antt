-- ===== src/Agent/Summary.antt =====
-- pkg/agent/loop.go: summarizeSession with summarizeBatch, retryLLMCall and findNearestUserMessage.
pub mod Laws
pub mod Nearest
use suprclaw_engine.Prelude.{
  ℕ, zero, suc, ◌+◌, ◌-◌, ◌*◌, ◌/◌, Bool, true, false, ◌&&◌, ◌||◌, not, List, [], ◌∷◌, ◌++◌, Option,
  none, some, if◌then◌else◌, ltb, leb, ◌==◌, nat_eq, list_eq, is_nil, length, take, drop, any, keep,
}
use suprclaw_engine.Prelude.Text.{Text, codes, byte_length}
use suprclaw_engine.Prelude.Unicode.{Unicode, trim_space}
use suprclaw_engine.Providers.Message.{Message}
use suprclaw_engine.Agent.History.Kept.{is_user}
use suprclaw_engine.Agent.Budget.Emergency.{message_at}
use suprclaw_engine.Agent.Budget.Compact.{TurnSession}

-- `messages[i].Role == "user"`, within the bounds.
abbrev pub user_at : List Message → ℕ → Bool
user_at messages i = elim (message_at i messages) [ none ↦ false | some m ↦ is_user m ]

-- The first loop: down to index 0.
unfoldable pub search_back : List Message → ℕ → ℕ
search_back messages zero = zero
search_back messages (suc mid) =
    let earlier = search_back messages mid in
    if user_at messages (suc mid) then suc mid else earlier

-- The second loop: how many messages stand before the next one of the user; all of them if there is
-- none.
unfoldable pub search_forward : List Message → ℕ
search_forward [] = 0
search_forward (m ∷ messages) =
    let later = search_forward messages in if is_user m then 0 else suc later

unfoldable pub find_nearest_user_message : List Message → ℕ → ℕ
find_nearest_user_message messages original_mid =
    let back = search_back messages original_mid in
    let forward = original_mid + search_forward (drop original_mid messages) in
    if user_at messages back
    then back
    else if ltb forward (length messages)
    then forward
    else original_mid

-- A reply of the model; one that reports no error has a response.
pub data Reply : Type 0 where
  failed : Reply
  replied : Text → Reply

-- `err == nil && resp.Content != ""`.
abbrev pub content_of : Reply → Option Text
content_of failed = none
content_of (replied content) = if is_nil content then none else some content

abbrev pub prompt_line : Message → Text
prompt_line m = m.role ++ (codes ": " ++ (m.content ++ (10 ∷ [])))

abbrev pub prompt_lines : List Message → Text
prompt_lines [] = []
prompt_lines (m ∷ batch) = prompt_line m ++ prompt_lines batch

abbrev pub existing_context : Text → Text
existing_context existing_summary =
    if is_nil existing_summary
    then []
    else codes "Existing context: " ++ (existing_summary ++ (10 ∷ []))

unfoldable pub batch_prompt : List Message → Text → Text
batch_prompt batch existing_summary =
    codes
      "Provide a concise summary of this conversation segment, preserving core context and key points."
    ++ ((10 ∷ existing_context existing_summary)
        ++ ((10 ∷ (codes "CONVERSATION:" ++ (10 ∷ []))) ++ prompt_lines batch))

module _ ⦃u : Unicode⦄ where
  -- How much of a message the summary without a model keeps.
  abbrev pub keep_length : ℕ → ℕ
  keep_length size =
      let tenth = size * 10 / 100 in
      let wanted = if ltb tenth 200 then 200 else tenth in if ltb size wanted then size else wanted

  unfoldable pub fallback_line : Message → Text
  fallback_line m =
      let content = trim_space m.content in
      let kept = keep_length (length content) in
      m.role
      ++ (codes ": "
          ++ (take kept content ++ (if ltb kept (length content) then codes "..." else [])))

  abbrev pub fallback_lines : List Message → Text
  fallback_lines [] = []
  fallback_lines (m ∷ []) = fallback_line m
  fallback_lines (m ∷ n ∷ batch) = fallback_line m ++ (codes " | " ++ fallback_lines (n ∷ batch))

  unfoldable pub fallback_summary : List Message → Text
  fallback_summary batch = codes "Conversation summary: " ++ fallback_lines batch

  -- The summary of two parts, if the model merges them or not.
  abbrev pub merged_summary : Reply → Text → Text → Text
  merged_summary failed s1 s2 = s1 ++ (codes " " ++ s2)
  merged_summary (replied content) s1 s2 =
      if is_nil content then s1 ++ (codes " " ++ s2) else content

  -- The model answers a prompt and moves on to another state.
  module _ {W : Type 0} (chat : W → Text → W × Reply) where
    -- The attempts that are left.
    unfoldable pub retry_llm_call : ℕ → W → Text → Reply → W × Reply
    retry_llm_call zero w prompt last = (w, last)
    retry_llm_call (suc attempts) w prompt last =
        let (w', reply) = chat w prompt in
        let rest = retry_llm_call attempts w' prompt reply in
        elim (content_of reply) [ some content ↦ (w', reply) | none ↦ rest ]

    unfoldable pub summarize_batch : W → List Message → Text → W × Text
    summarize_batch w batch existing_summary =
        let (w', reply) = retry_llm_call 3 w (batch_prompt batch existing_summary) failed in
        (
          w',
          elim (content_of reply) [
            | some content ↦ trim_space content
            | none ↦ fallback_summary batch
          ],
        )

    unfoldable pub merge_prompt : Text → Text → Text
    merge_prompt s1 s2 =
        codes "Merge these two conversation summaries into one cohesive summary:"
        ++ ((10 ∷ 10 ∷ codes "1: ") ++ (s1 ++ ((10 ∷ 10 ∷ codes "2: ") ++ s2)))

    -- Two parts, and one summary of both.
    unfoldable pub summarize_parts : W → List Message → W × Text
    summarize_parts w messages =
        let mid = find_nearest_user_message messages (length messages / 2) in
        let (w₁, s1) = summarize_batch w (take mid messages) [] in
        let (w₂, s2) = summarize_batch w₁ (drop mid messages) [] in
        let (w₃, reply) = retry_llm_call 3 w₂ (merge_prompt s1 s2) failed in
        (w₃, merged_summary reply s1 s2)

    unfoldable pub final_summary : W → List Message → Text → W × Text
    final_summary w messages summary =
        if ltb 10 (length messages)
        then summarize_parts w messages
        else summarize_batch w messages summary

  abbrev pub is_conversation : Message → Bool
  is_conversation m = is_user m || m.role == codes "assistant"

  abbrev pub is_oversized : ℕ → Message → Bool
  is_oversized context_window m = ltb (context_window / 2) (byte_length m.content / 2)

  abbrev pub is_valid : ℕ → Message → Bool
  is_valid context_window m = is_conversation m && not (is_oversized context_window m)

  abbrev pub omitted_note : Bool → Text → Text
  omitted_note omitted summary =
      if omitted && not (is_nil summary)
      then summary
        ++ (10
            ∷ codes
                "[Note: Some oversized messages were omitted from this summary for efficiency.]")
      else summary

  -- The last 4 messages of a session.
  abbrev pub truncated : TurnSession → TurnSession
  truncated session = record session { history = drop (length session.history - 4) session.history }

  -- If there is a summary, it is set and then the history truncated, on the session as it is then;
  -- `between` is what others do to the session between the two.
  abbrev pub with_summary : (TurnSession → TurnSession) → TurnSession → Text → TurnSession
  with_summary between current summary =
      if is_nil summary then current else truncated (between (record current { summary = summary }))

  -- All messages but the last 4.
  abbrev pub to_summarize : TurnSession → List Message
  to_summarize session = take (length session.history - 4) session.history

  abbrev pub valid_messages : ℕ → TurnSession → List Message
  valid_messages context_window session = keep (is_valid context_window) (to_summarize session)

  unfoldable pub new_summary :
      {W : Type 0} → (W → Text → W × Reply) → ℕ → W → TurnSession → W × Text
  new_summary chat context_window w session =
      let omitted =
        any (λ m. is_conversation m && is_oversized context_window m) (to_summarize session) in
      let (w', summary) =
        final_summary chat w (valid_messages context_window session) session.summary in
      (w', omitted_note omitted summary)

  -- No lock is held: `session` is what is read at the start, and `meanwhile` what others make of it
  -- while the model is asked.
  unfoldable pub summarize_session :
      {W : Type 0}
      → (W → Text → W × Reply)
      → (W → TurnSession → TurnSession)
      → (TurnSession → TurnSession)
      → ℕ
      → W
      → TurnSession
      → W × TurnSession
  summarize_session chat meanwhile between context_window w session =
      let (w', summary) = new_summary chat context_window w session in
      if leb (length session.history) 4 || is_nil (valid_messages context_window session)
      then (w, session)
      else (w', with_summary between (meanwhile w' session) summary)
