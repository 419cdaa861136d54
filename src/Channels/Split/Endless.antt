-- ===== src/Channels/Split/Endless.antt =====
-- pkg/channels/split.go on a code block whose first line is longer than a message.
use suprclaw_engine.Prelude.{
  ℕ, zero, suc, ◌-◌, ◌+◌, ◌≤◌, ◌<◌, ◌≡◌, refl, sym, ◌∙◌, ap, max, Bool, true, false, List, [], ◌∷◌,
  ◌++◌, Option, none, some, if◌then◌else◌, ltb, leb, nat_eq, length, length-append, take, drop, all,
  arith,
}
use mathlib.Core.List.{append_assoc}
use suprclaw_engine.Prelude.Int.{pos}
use suprclaw_engine.Prelude.Slices.{take-append}
use suprclaw_engine.Prelude.Text.{Text, trim_right}
use suprclaw_engine.Prelude.Text.Laws.{trim_left_id, trim_right-append}
use suprclaw_engine.Prelude.Unicode.{Unicode, trim_space, trim_space_plain}
use suprclaw_engine.Channels.Split.{
  SplitState, Progress, is_newline, is_space, is_blank, backtick, is_fence, rune_at,
  find_last_in_range, unclosed_from, find_last_unclosed_code_block_in_range,
  find_next_closing_code_block_in_range, find_newline_from, effective_limit, natural_break,
  chunk_end, slice, split_inside, header_at, split_block, split_at_fence, split_step, split_loop,
  split_message, inner_limit, advance,
}
use suprclaw_engine.Channels.Split.Laws.{effective_limit-bound}
use suprclaw_engine.Channels.Split.Searches.{
  rune_at-append, rune_at-all, rune_at-length, last_from-none, unclosed_from-open,
  closing_from-late, newline_from-found,
}
use suprclaw_engine.Channels.Split.Solid.{
  is_solid, is_visible, fenced, body-visible, trim_right-visible,
}

-- What is read of a fenced line of visible characters with something behind it.
module _ (body rest : Text) (solid : all is_solid body ≡ true) where
  line : Text
  line = fenced body ++ (10 ∷ rest)

  line-IsSolid : (i : ℕ) → 3 ≤ i → i < 3 + length body → is_solid (rune_at line i) ≡ true
  unfolding line rune_at
  line-IsSolid zero low high = absurd (omega arith)
  line-IsSolid (suc zero) low high = absurd (omega arith)
  line-IsSolid (suc (suc zero)) low high = absurd (omega arith)
  line-IsSolid (suc (suc (suc i))) low high =
      ap is_solid (rune_at-append body (10 ∷ rest) i (omega arith))
      ∙ rune_at-all is_solid body i solid (omega arith)

  line-unbroken : (i : ℕ) → i < 3 + length body → (ltb 32 (rune_at line i)) ≡ true
  unfolding line rune_at
  line-unbroken zero high = refl
  line-unbroken (suc zero) high = refl
  line-unbroken (suc (suc zero)) high = refl
  line-unbroken (suc (suc (suc i))) high =
      let visible = line-IsSolid (suc (suc (suc i))) (omega arith) high in ground (arith, visible)

  line-not_fence : (i : ℕ) → 3 ≤ i → i < 3 + length body → is_fence line i ≡ false
  unfolding is_fence
  line-not_fence i low high = let visible = line-IsSolid i low high in ground (arith, visible)

  line-fence : is_fence line 0 ≡ true
  unfolding is_fence line rune_at nat_eq
  line-fence = refl

  line-newline : rune_at line (3 + length body) ≡ 10
  unfolding line rune_at
  line-newline =
      let e : 3 + length body ≡ length (fenced body) = omega arith in
      ap (rune_at line) e ∙ rune_at-length (fenced body) 10 rest

  length-line : length line ≡ 4 + length body + length rest
  unfolding line
  length-line = omega (arith, length-append body (10 ∷ rest))

  find_newline_from-line : find_newline_from line 0 ≡ some (3 + length body)
  unfolding find_newline_from
  find_newline_from-line =
      newline_from-found line 0 (length line - 0) (3 + length body)
        (λ j a b. let visible = line-unbroken j b in ground (arith, visible))
        (let at_e = line-newline in ground (arith, at_e)) (omega arith) (omega (arith, length-line))

  find_last_in_range-line :
      (p : ℕ → Bool) (window stop : ℕ)
      → ((c : ℕ) → ltb 32 c ≡ true → p c ≡ false)
      → stop ≤ 3 + length body
      → find_last_in_range p line 0 stop window ≡ none
  unfolding find_last_in_range
  find_last_in_range-line p window stop q h =
      let low = max (stop - window) 0 in
      last_from-none p line low (stop - low)
        (λ i k. q (rune_at line i) (line-unbroken i (ground arith)))

  natural_break-line : (stop : ℕ) → stop ≤ 3 + length body → natural_break line 0 stop ≡ none
  unfolding natural_break
  natural_break-line stop h =
      rw
        (
          natural_break,
          find_last_in_range-line is_newline 200 stop (λ c v. ground arith) h,
          find_last_in_range-line is_space 100 stop (λ c v. ground arith) h,
        )
        refl

  unclosed-line :
      (stop : ℕ)
      → 3 ≤ stop
      → stop ≤ 3 + length body
      → find_last_unclosed_code_block_in_range line 0 stop ≡ some 0
  unfolding find_last_unclosed_code_block_in_range unclosed_from
  unclosed-line zero low high = absurd (omega arith)
  unclosed-line (suc zero) low high = absurd (omega arith)
  unclosed-line (suc (suc zero)) low high = absurd (omega arith)
  unclosed-line (suc (suc (suc k))) low high =
      let e : suc (suc (suc k)) - 0 ≡ suc (suc (suc k)) = omega arith in
      rw (e, unclosed_from, line-fence)
        (unclosed_from-open line 3 k 0 (λ i a b. line-not_fence i a (omega arith)))

  closing-line :
      (stop k : ℕ)
      → 3 ≤ stop
      → find_next_closing_code_block_in_range line stop (length line) ≡ some k
      → 3 + length body < k
  unfolding find_next_closing_code_block_in_range
  closing-line stop k low e =
      closing_from-late line (3 + length body) stop (length line - stop) k
        (λ j a b. line-not_fence j (omega arith) b) e

  -- The header of the block is the line.
  header_at-line : ⦃u : Unicode⦄ → header_at line 0 ≡ (fenced body, 3 + length body)
  unfolding header_at line
  header_at-line =
      let e : 3 + length body - 0 ≡ length (fenced body) = omega arith in
      let header : slice line 0 (3 + length body) ≡ fenced body =
        ap (λ k. take k line) e ∙ take-append (fenced body) (10 ∷ rest) in
      let visible : all is_visible (fenced body) ≡ true = body-visible body solid in
      rw (header_at, find_newline_from-line, header, trim_space_plain (fenced body) visible) refl

  -- The text that the rest of the loop sees.
  next_line :
      ⦃u : Unicode⦄ (k : ℕ)
      → k < 3 + length body
      → trim_space (fenced body ++ (10 ∷ drop k line))
        ≡ fenced body ++ (10 ∷ trim_right u.space (drop k line))
  unfolding trim_space line
  next_line ⦃u⦄ k h =
      let header = fenced body ++ (10 ∷ []) in
      let behind = drop k line in
      let whole : fenced body ++ (10 ∷ behind) ≡ header ++ behind =
        sym (append_assoc (fenced body) (10 ∷ []) behind) in
      let visible : all is_visible (fenced body) ≡ true = body-visible body solid in
      let front : u.space backtick ≡ false = u.space_ascii backtick (omega arith) in
      rw (trim_left_id u.space (fenced body ++ (10 ∷ behind)) front, whole)
        (trim_right-append u.space header behind
            (trim_right-visible (fenced body) (10 ∷ rest) k visible (omega arith))
          ∙ append_assoc (fenced body) (10 ∷ []) (trim_right u.space behind))

  module _ ⦃u : Unicode⦄ (n : ℕ) (room : 5 ≤ suc n) (long : suc n ≤ length body)
      (ms : List Text) where
    abbrev at_line : SplitState
    at_line = record { runes = line; start = 0; messages = ms }

    limit : (3 ≤ effective_limit (suc n)) × (effective_limit (suc n) ≤ suc n)
    limit = (ground arith, (effective_limit-bound n).1)

    chunk_end-line : chunk_end (suc n) at_line ≡ effective_limit (suc n)
    unfolding chunk_end
    chunk_end-line =
        let (low, high) = limit in
        rw (chunk_end, natural_break-line (0 + effective_limit (suc n)) (omega arith)) (omega arith)

    module _ (stop : ℕ) (low : 3 ≤ stop) (high : stop ≤ suc n) where
      split_block-line :
          split_block (suc n) at_line stop 0 ≡ split_inside at_line (fenced body) (suc n - 5)
      unfolding split_block
      split_block-line =
          let a : ltb (3 + length body + 20) stop ≡ false = ground arith in
          let e : inner_limit (suc n) at_line ≡ suc n - 5 = omega (arith, length-line) in
          rw (split_block, header_at-line, a, natural_break-line 0 (omega arith), e)
            (ap (λ (h : Text × ℕ). split_inside at_line h.0 (suc n - 5)) header_at-line)

      split_at_fence-line :
          split_at_fence (suc n) at_line stop 0 ≡ split_inside at_line (fenced body) (suc n - 5)
      unfolding split_at_fence
      split_at_fence-line =
          let a : ltb stop (length line) ≡ true = ground (arith, length-line) in
          rw (split_at_fence, a)
            (go (find_next_closing_code_block_in_range line stop (length line))
              (λ k. closing-line stop k low))
        where
          go :
              (closing : Option ℕ)
              → ((k : ℕ) → closing ≡ some k → 3 + length body < k)
              → (elim closing as (λ _. Progress) [
                | some closing_idx ↦
                    if leb (closing_idx - 0) (suc n)
                    then advance (suc n) at_line closing_idx
                    else split_block (suc n) at_line stop 0
                | none ↦ split_block (suc n) at_line stop 0
              ])
                ≡ split_inside at_line (fenced body) (suc n - 5)
          go none f = split_block-line
          go (some k) f =
              let far = f k refl in
              let b : leb (k - 0) (suc n) ≡ false = ground arith in rw b split_block-line

    split_step-line : split_step (suc n) at_line ≡ split_inside at_line (fenced body) (suc n - 5)
    unfolding split_step
    split_step-line =
        let (low, high) = limit in
        let a : leb (length line) 0 ≡ false = ground (arith, length-line) in
        let b : leb (length line - 0) (suc n) ≡ false = ground (arith, length-line) in
        rw
          (
            split_step,
            a,
            b,
            chunk_end-line,
            unclosed-line (effective_limit (suc n)) low (omega arith),
          )
          (ap (λ c. split_at_fence (suc n) at_line c 0) chunk_end-line
            ∙ split_at_fence-line (effective_limit (suc n)) low high)

-- No run of the loop ends.
split_loop-line :
    ⦃u : Unicode⦄ (n : ℕ) (body : Text)
    → 5 ≤ suc n
    → suc n ≤ length body
    → all is_solid body ≡ true
    → (fuel : ℕ) (rest : Text) (ms : List Text)
    → split_loop fuel
        (suc n)
        (record { runes = fenced body ++ (10 ∷ rest); start = 0; messages = ms })
      ≡ none
unfolding split_loop split_inside line
split_loop-line n body room long solid zero rest ms = refl
split_loop-line n body room long solid (suc fuel) rest ms =
    let cut = suc n - 5 in
    let text = fenced body ++ (10 ∷ rest) in
    let chunk =
      trim_right is_blank (slice text 0 cut) ++ (10 ∷ backtick ∷ backtick ∷ backtick ∷ []) in
    rw (split_loop, split_step-line body rest solid n room long ms)
      (ap
          (λ r.
            split_loop fuel (suc n)
              (record { runes = r; start = 0; messages = ms ++ (chunk ∷ []) }))
          (next_line body rest solid cut (omega arith))
        ∙ split_loop-line n body room long solid fuel _ (ms ++ (chunk ∷ [])))

-- A content that begins with a fence on a line with at least as many more characters as a message may
-- have, all of them visible ASCII and none a backtick, is split for ever, for any message length of at
-- least 5: no number of iterations is enough.
pub split_message-endless :
    ⦃u : Unicode⦄ (n : ℕ) (body rest : Text)
    → 5 ≤ suc n
    → suc n ≤ length body
    → all is_solid body ≡ true
    → (fuel : ℕ) → split_message fuel (pos (suc n)) (fenced body ++ (10 ∷ rest)) ≡ none
unfolding split_message
split_message-endless n body rest room long solid fuel =
    split_loop-line n body room long solid fuel rest []
