-- ===== src/Channels/Split/Plain.antt =====
-- pkg/channels/split.go on a text without fences: its loop ends.
use suprclaw_engine.Prelude.{
  ℕ, zero, suc, ◌-◌, ◌+◌, ◌≤◌, ◌<◌, ◌≡◌, refl, sym, ◌∙◌, ap, true, false, List, [], ◌∷◌, ◌++◌, none,
  some, leb, nat_eq, length, drop, keep, all, arith, Bool-cases, inl, inr, length-take_le, not,
}
use mathlib.Core.List.{append_assoc, append-nil}
use suprclaw_engine.Prelude.Int.{pos}
use suprclaw_engine.Prelude.Slices.{take-drop, length-drop, drop_from, drop-drop, keep-append}
use suprclaw_engine.Prelude.Text.{Text}
use suprclaw_engine.Prelude.Unicode.{Unicode}
use suprclaw_engine.Channels.Split.{
  SplitState, again, finished, is_blank, is_fence, find_last_unclosed_code_block_in_range,
  chunk_end, blanks, slice, split_step, split_loop, split_message,
}
use suprclaw_engine.Channels.Split.Laws.{
  ink, joined, all_fit, joined-append, all_fit-append, ink-blanks, unclosed_from-none,
  chunk_end-bound, advance-behind,
}

-- The ink of a text is that of a chunk and that of what is behind it.
ink-chunk :
    (ms : List Text) (runes : Text) (start stop : ℕ)
    → start ≤ stop
    → ink (joined (ms ++ (slice runes start stop ∷ [])))
        ++ ink (drop (stop + blanks (drop stop runes)) runes)
      ≡ ink (joined ms) ++ ink (drop start runes)
ink-chunk ms runes start stop o =
    let k = stop - start in
    let chunk = slice runes start stop in
    let e : start + k ≡ stop = omega arith in
    let behind : drop k (drop start runes) ≡ drop stop runes =
      drop-drop k start runes ∙ ap (λ i. drop i runes) e in
    let all_ink : ink (drop start runes) ≡ ink chunk ++ ink (drop stop runes) =
      ap ink (take-drop k (drop start runes))
      ∙ keep-append (λ c. not (is_blank c)) chunk (drop k (drop start runes))
      ∙ ap (λ r. ink chunk ++ ink r) behind in
    let first : ink (joined (ms ++ (chunk ∷ []))) ≡ ink (joined ms) ++ ink chunk =
      ap ink (joined-append ms chunk) ∙ keep-append (λ c. not (is_blank c)) (joined ms) chunk in
    let later : ink (drop (stop + blanks (drop stop runes)) runes) ≡ ink (drop stop runes) =
      ap ink (sym (drop-drop (blanks (drop stop runes)) stop runes))
      ∙ ink-blanks (drop stop runes) in
    ap (λ r. r ++ ink (drop (stop + blanks (drop stop runes)) runes)) first
    ∙ ap (λ r. (ink (joined ms) ++ ink chunk) ++ r) later
    ∙ append_assoc (ink (joined ms)) (ink chunk) (ink (drop stop runes))
    ∙ ap (λ r. ink (joined ms) ++ r) (sym all_ink)

module _ ⦃u : Unicode⦄ (n : ℕ) where
  -- What is left of a text after a chunk.
  rest_after : SplitState → ℕ
  rest_after s = let stop = chunk_end (suc n) s in stop + blanks (drop stop s.runes)

  next_state : SplitState → SplitState
  unfolding rest_after
  next_state s = record s {
    start = rest_after s;
    messages = s.messages ++ (slice s.runes s.start (chunk_end (suc n) s) ∷ []);
  }

  -- An iteration that is not the last takes a chunk.
  split_step-plain :
      (s : SplitState)
      → ((i : ℕ) → is_fence s.runes i ≡ false)
      → suc n < length s.runes - s.start
      → split_step (suc n) s ≡ again (next_state s)
  unfolding next_state rest_after find_last_unclosed_code_block_in_range split_step chunk_end
  split_step-plain s plain long =
      let (behind, within) = chunk_end-bound n s in
      let stop = chunk_end (suc n) s in
      let a : leb (length s.runes) s.start ≡ false = ground arith in
      let b : leb (length s.runes - s.start) (suc n) ≡ false = ground arith in
      let c : find_last_unclosed_code_block_in_range s.runes s.start stop ≡ none =
        unclosed_from-none s.runes s.start (stop - s.start) plain in
      rw (split_step, a, b, c) (advance-behind (suc n) s stop behind)

  split_step-over :
      (s : SplitState) → length s.runes ≤ s.start → split_step (suc n) s ≡ finished s.messages
  unfolding split_step
  split_step-over s short = let a : leb (length s.runes) s.start ≡ true = ground arith in rw a refl

  split_step-last :
      (s : SplitState)
      → s.start < length s.runes
      → length s.runes - s.start ≤ suc n
      → split_step (suc n) s ≡ finished (s.messages ++ (drop s.start s.runes ∷ []))
  unfolding split_step
  split_step-last s more short =
      let a : leb (length s.runes) s.start ≡ false = ground arith in
      let b : leb (length s.runes - s.start) (suc n) ≡ true = ground arith in rw (a, b) refl

  ink-next_state :
      (s : SplitState)
      → ink (joined (next_state s).messages) ++ ink (drop (next_state s).start s.runes)
        ≡ ink (joined s.messages) ++ ink (drop s.start s.runes)
  unfolding next_state rest_after
  ink-next_state s =
      let (behind, within) = chunk_end-bound n s in
      ink-chunk s.messages s.runes s.start (chunk_end (suc n) s) (omega arith)

  -- The loop on such a text: enough fuel, and the chunks that it adds.
  Splits : ℕ → SplitState → Type 0
  Splits fuel s =
      (ms : List Text) × (split_loop fuel (suc n) s ≡ some ms)
      × (all_fit (suc n) ms ≡ true)
      × (ink (joined ms) ≡ ink (joined s.messages) ++ ink (drop s.start s.runes))

  Splits-over :
      (fuel : ℕ) (s : SplitState)
      → all_fit (suc n) s.messages ≡ true
      → length s.runes ≤ s.start
      → Splits (suc fuel) s
  unfolding Splits split_loop keep
  Splits-over fuel s fit short =
      let e : drop s.start s.runes ≡ [] = drop_from s.start s.runes short in
      (
        s.messages,
        rw (split_loop, split_step-over s short) refl,
        fit,
        rw e (sym (append-nil (ink (joined s.messages)))),
      )

  Splits-last :
      (fuel : ℕ) (s : SplitState)
      → all_fit (suc n) s.messages ≡ true
      → s.start < length s.runes
      → length s.runes - s.start ≤ suc n
      → Splits (suc fuel) s
  unfolding Splits split_loop
  Splits-last fuel s fit more short =
      let chunk = drop s.start s.runes in
      (
        s.messages ++ (chunk ∷ []),
        rw (split_loop, split_step-last s more short) refl,
        all_fit-append (suc n) s.messages chunk fit (omega (arith, length-drop s.start s.runes)),
        ap ink (joined-append s.messages chunk)
            ∙ keep-append (λ c. not (is_blank c)) (joined s.messages) chunk,
      )

  Splits-again :
      (fuel : ℕ) (s : SplitState)
      → ((i : ℕ) → is_fence s.runes i ≡ false)
      → suc n < length s.runes - s.start
      → Splits fuel (next_state s)
      → Splits (suc fuel) s
  unfolding Splits split_loop next_state
  Splits-again fuel s plain long (ms, run, fit, same) =
      (ms, rw (split_loop, split_step-plain s plain long) run, fit, same ∙ ink-next_state s)

  less :
      {fuel : ℕ} (s : SplitState)
      → length s.runes - s.start < suc fuel
      → suc n < length s.runes - s.start
      → length (next_state s).runes - (next_state s).start < fuel
  unfolding next_state rest_after
  less s enough long = let (behind, within) = chunk_end-bound n s in omega arith

  fits :
      (s : SplitState)
      → all_fit (suc n) s.messages ≡ true
      → all_fit (suc n) (next_state s).messages ≡ true
  unfolding next_state
  fits s fit =
      let (behind, within) = chunk_end-bound n s in
      let stop = chunk_end (suc n) s in
      let k : length (slice s.runes s.start stop) ≤ stop - s.start =
        length-take_le (stop - s.start) (drop s.start s.runes) in
      all_fit-append (suc n) s.messages (slice s.runes s.start stop) fit (omega arith)

  split_loop-plain :
      (fuel : ℕ) (s : SplitState)
      → ((i : ℕ) → is_fence s.runes i ≡ false)
      → length s.runes - s.start < fuel
      → all_fit (suc n) s.messages ≡ true
      → Splits fuel s
  unfolding next_state
  split_loop-plain zero s plain enough fit = absurd (omega arith)
  split_loop-plain (suc fuel) s plain enough fit =
      elim (Bool-cases (leb (length s.runes) s.start)) [
        | inl over ↦ Splits-over fuel s fit (ground arith)
        | inr more ↦ elim (Bool-cases (leb (length s.runes - s.start) (suc n))) [
          | inl last ↦ Splits-last fuel s fit (ground arith) (ground arith)
          | inr long ↦ Splits-again fuel s plain (ground arith) (
              split_loop-plain fuel (next_state s) plain (less s enough (ground arith))
                (fits s fit))
        ]
      ]

  -- A content in which no fence begins is split within one iteration for each rune and one more, into
  -- chunks of at most the given number of runes, which is positive. Joined, the chunks are the content but for white space.
  pub split_message-plain :
      (content : Text)
      → ((i : ℕ) → is_fence content i ≡ false)
      → (ms : List Text) × (split_message (suc (length content)) (pos (suc n)) content ≡ some ms)
        × (all (λ m. leb (length m) (suc n)) ms ≡ true)
        × (keep (λ c. not (is_blank c)) (joined ms) ≡ keep (λ c. not (is_blank c)) content)
  unfolding split_message Splits keep
  split_message-plain content plain =
      split_loop-plain (suc (length content)) (record { runes = content; start = 0; messages = [] })
        plain (omega arith) refl
