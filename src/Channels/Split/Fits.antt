-- ===== src/Channels/Split/Fits.antt =====
-- The chunks of pkg/channels/split.go are no longer than a message.
use suprclaw_engine.Prelude.{
  ℕ, zero, suc, ◌-◌, ◌+◌, ◌≤◌, ◌<◌, ◌≡◌, refl, sym, ◌∙◌, Bool, true, false, List, [], ◌∷◌, ◌++◌,
  Option, none, some, if◌then◌else◌, ltb, leb, nat_eq, length, length-append, drop, arith,
  Bool-cases, inl, inr, length-take_le,
}
use suprclaw_engine.Prelude.Slices.{length-drop}
use suprclaw_engine.Prelude.Text.Laws.{length-trim_right}
use suprclaw_engine.Prelude.Text.{Text, trim_right}
use suprclaw_engine.Prelude.Unicode.{Unicode}
use suprclaw_engine.Channels.Split.{
  SplitState, Progress, again, finished, is_newline, is_blank, backtick, is_fence, unclosed_from,
  find_last_unclosed_code_block_in_range, find_next_closing_code_block_in_range, effective_limit,
  natural_break, chunk_end, slice, advance, inner_limit, split_inside, split_block, split_at_fence,
  split_step, split_loop,
}
use suprclaw_engine.Channels.Split.Laws.{
  all_fit, all_fit-append, effective_limit-bound, natural_break-bound, find_last_in_range-bound,
  chunk_end-bound,
}

-- An unclosed fence is between the positions that are searched.
unclosed_from-within :
    (low top : ℕ) (runes : Text) (i n : ℕ) (open_at : Option ℕ) (k : ℕ)
    → low ≤ i
    → i + n ≤ top
    → ((j : ℕ) → open_at ≡ some j → (low ≤ j) × (j < top))
    → unclosed_from runes i n open_at ≡ some k
    → (low ≤ k) × (k < top)
unfolding unclosed_from
unclosed_from-within low top runes i zero open_at k a b h e = h k e
unclosed_from-within low top runes i (suc zero) open_at k a b h e = h k e
unclosed_from-within low top runes i (suc (suc zero)) open_at k a b h e = h k e
unclosed_from-within low top runes i (suc (suc (suc n))) open_at k a b h e =
    elim (Bool-cases (is_fence runes i)) [
      | inl fence ↦
          let toggled : Option ℕ = elim open_at [ none ↦ some i | some o ↦ none ] in
          let step : unclosed_from runes i (suc (suc (suc n))) open_at
              ≡ unclosed_from runes (i + 3) n toggled =
            rw (unclosed_from, fence) refl in
          unclosed_from-within low top runes (i + 3) n toggled k (omega arith) (omega arith)
            (toggles open_at) (sym step ∙ e)
      | inr other ↦
          let step : unclosed_from runes i (suc (suc (suc n))) open_at
              ≡ unclosed_from runes (i + 1) (suc (suc n)) open_at =
            rw (unclosed_from, other) refl in
          unclosed_from-within low top runes (i + 1) (suc (suc n)) open_at k (omega arith)
            (omega arith) h (sym step ∙ e)
    ]
  where
    toggles :
        (o : Option ℕ) (j : ℕ)
        → (elim o as (λ _. Option ℕ) [ none ↦ some i | some o' ↦ none ]) ≡ some j
        → (low ≤ j) × (j < top)
    toggles none j q = ground arith
    toggles (some o) j q = ground arith

-- The messages of an outcome are no longer than a message.
pub Fits : ℕ → Progress → Type 0
Fits m (again s) = all_fit m s.messages ≡ true
Fits m (finished ms) = all_fit m ms ≡ true

finished-Fits : (m : ℕ) (ms : List Text) → all_fit m ms ≡ true → Fits m (finished ms)
unfolding Fits
finished-Fits m ms h = h

if-Fits : (m : ℕ) (b : Bool) (x y : Progress) → Fits m x → Fits m y → Fits m (if b then x else y)
if-Fits m true x y h k = h
if-Fits m false x y h k = k

test-Fits :
    (m : ℕ) (b : Bool) (x y : Progress)
    → (b ≡ true → Fits m x)
    → (b ≡ false → Fits m y)
    → Fits m (if b then x else y)
test-Fits m true x y h k = h refl
test-Fits m false x y h k = k refl

at_most : {a b c : ℕ} → a ≤ b → b ≤ c → a ≤ c
at_most h k = omega arith

option-Fits :
    (m : ℕ) (found : Option ℕ) (x : Progress) (f : ℕ → Progress)
    → Fits m x
    → ((i : ℕ) → found ≡ some i → Fits m (f i))
    → Fits m (elim found as (λ _. Progress) [ none ↦ x | some i ↦ f i ])
option-Fits m none x f h k = h
option-Fits m (some i) x f h k = k i refl

-- Where a block is cut.
cut-bound :
    (inner header_end_idx : ℕ) (found : Option ℕ)
    → ((i : ℕ) → found ≡ some i → i < inner)
    → (elim found as (λ _. ℕ) [ none ↦ inner | some i ↦ if ltb header_end_idx i then i else inner ])
      ≤ inner
cut-bound inner h none f = omega arith
cut-bound inner h (some i) f = let k = f i refl in ground arith

module _ (n : ℕ) (s : SplitState) (fit : all_fit (suc n) s.messages ≡ true) where
  advance-Fits : (stop : ℕ) → stop ≤ s.start + suc n → Fits (suc n) (advance (suc n) s stop)
  unfolding advance Fits
  advance-Fits stop h =
      let (low, high) = effective_limit-bound n in
      let end_ : ℕ = if leb stop s.start then s.start + effective_limit (suc n) else stop in
      let close : end_ ≤ s.start + suc n = ground arith in
      let short : length (slice s.runes s.start end_) ≤ end_ - s.start =
        length-take_le (end_ - s.start) (drop s.start s.runes) in
      all_fit-append (suc n) s.messages (slice s.runes s.start end_) fit (omega arith)

  module _ ⦃u : Unicode⦄ (room : 5 ≤ suc n) where
    split_inside-Fits :
        (header : Text) (cut : ℕ)
        → cut ≤ s.start + suc n - 5
        → Fits (suc n) (split_inside s header cut)
    unfolding split_inside Fits
    split_inside-Fits header cut h =
        let part = slice s.runes s.start cut in
        let closing : Text = 10 ∷ backtick ∷ backtick ∷ backtick ∷ [] in
        let short : length part ≤ cut - s.start =
          length-take_le (cut - s.start) (drop s.start s.runes) in
        let chunk : length (trim_right is_blank part ++ closing)
            ≡ length (trim_right is_blank part) + 4 =
          length-append (trim_right is_blank part) closing in
        all_fit-append (suc n) s.messages (trim_right is_blank part ++ closing) fit
          (omega (arith, length-trim_right is_blank part))

    module _ (msg_end unclosed_idx : ℕ) (within : msg_end ≤ s.start + suc n)
        (low : s.start ≤ unclosed_idx) (high : unclosed_idx < msg_end)
        (more : s.start < length s.runes) where
      split_block-Fits : Fits (suc n) (split_block (suc n) s msg_end unclosed_idx)
      unfolding split_block
      split_block-Fits =
          let inner = inner_limit (suc n) s in
          let o : s.start ≤ inner = omega arith in
          let inside : inner ≤ s.start + suc n - 5 = omega arith in
          if-Fits (suc n) _ _ _
            (split_inside-Fits _ _ (
              at_most
                (cut-bound inner _ _
                  (λ i e. find_last_in_range-bound is_newline s.runes s.start inner 200 i o e))
                inside))
            (option-Fits (suc n) (natural_break s.runes s.start unclosed_idx) _ _
              (if-Fits (suc n) _ _ _ (advance-Fits unclosed_idx (omega arith))
                (split_inside-Fits _ inner inside))
              (λ i e. advance-Fits i (
                let (a, b) = natural_break-bound s.runes s.start unclosed_idx i low e in
                omega arith)))

      split_at_fence-Fits : Fits (suc n) (split_at_fence (suc n) s msg_end unclosed_idx)
      unfolding split_at_fence
      split_at_fence-Fits =
          if-Fits (suc n) _ _ _
            (option-Fits (suc n)
              (find_next_closing_code_block_in_range s.runes msg_end (length s.runes)) _ _
              split_block-Fits
              (λ i e.
                test-Fits (suc n) _ _ _ (λ near. advance-Fits i (ground arith))
                  (λ far. split_block-Fits)))
            (advance-Fits msg_end within)

    -- For messages of at least 5 runes an iteration of the loop, from any state whose messages are no longer
    -- than that, leads to messages that are no longer than that: to the result or to the next state.
    pub split_step-Fits : Fits (suc n) (split_step (suc n) s)
    unfolding split_step find_last_unclosed_code_block_in_range
    split_step-Fits =
        let (behind, within) = chunk_end-bound n s in
        let stop = chunk_end (suc n) s in
        test-Fits (suc n) _ _ _ (λ over. finished-Fits (suc n) s.messages fit)
          (λ inside.
            test-Fits (suc n) _ _ _
              (λ last.
                finished-Fits (suc n) _
                  (all_fit-append (suc n) s.messages (drop s.start s.runes) fit (last_fits last)))
              (λ long. option-Fits (suc n) _ _ _ (advance-Fits stop within) (λ i e.
                let (low, high) =
                  unclosed_from-within s.start stop s.runes s.start (stop - s.start) none i
                    (omega arith) (omega arith) (λ j q. ground arith) (found_from stop i e) in
                split_at_fence-Fits stop i within low high (ground arith))))
      where
        last_fits :
            leb (length s.runes - s.start) (suc n) ≡ true → length (drop s.start s.runes) ≤ suc n
        last_fits last = ground (arith, length-drop s.start s.runes)

        found_from :
            (stop i : ℕ)
            → find_last_unclosed_code_block_in_range s.runes s.start stop ≡ some i
            → unclosed_from s.runes s.start (stop - s.start) none ≡ some i
        found_from stop i e = e

split_loop-fits :
    ⦃u : Unicode⦄ (n fuel : ℕ) (s : SplitState) (ms : List Text)
    → 5 ≤ suc n
    → all_fit (suc n) s.messages ≡ true
    → split_loop fuel (suc n) s ≡ some ms
    → all_fit (suc n) ms ≡ true
unfolding split_loop Fits
split_loop-fits n zero s ms room fit e = ground arith
split_loop-fits n (suc fuel) s ms room fit e =
    go (split_step (suc n) s) (split_step-Fits n s fit room) e
      (λ next h q. split_loop-fits n fuel next ms room h q)
  where
    go :
        (p : Progress)
        → Fits (suc n) p
        → (elim p as (λ _. Option (List Text)) [
          | finished messages ↦ some messages
          | again next ↦ split_loop fuel (suc n) next
        ])
          ≡ some ms
        → ((next : SplitState)
            → all_fit (suc n) next.messages ≡ true
            → split_loop fuel (suc n) next ≡ some ms
            → all_fit (suc n) ms ≡ true)
        → all_fit (suc n) ms ≡ true
    go (finished messages) h q later = ground (arith, h)
    go (again next) h q later = later next h q
