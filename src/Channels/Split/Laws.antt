-- ===== src/Channels/Split/Laws.antt =====
-- How pkg/channels/split.go splits a text without code blocks.
use suprclaw_engine.Prelude.{
  ℕ, zero, suc, ◌-◌, ◌+◌, ◌≤◌, ◌<◌, ◌≡◌, refl, sym, ◌∙◌, ap, max, Bool, true, false, not, List, [],
  ◌∷◌, ◌++◌, Option, none, some, leb, nat_eq, length, drop, keep, all, arith, inl, inr, ◌⊎◌,
}
use mathlib.Core.List.{append_assoc, append-nil}
use suprclaw_engine.Prelude.Text.{Text}
use suprclaw_engine.Channels.Split.{
  SplitState, again, is_newline, is_space, is_blank, is_fence, last_from, find_last_in_range,
  unclosed_from, effective_limit, beyond, natural_break, chunk_end, blanks, slice, advance,
}

-- The characters that are not white space.
abbrev pub ink : Text → Text
ink = keep (λ c. not (is_blank c))

abbrev pub joined : List Text → Text
joined [] = []
joined (m ∷ ms) = m ++ joined ms

abbrev pub all_fit : ℕ → List Text → Bool
all_fit max_len = all (λ m. leb (length m) max_len)

pub joined-append : (ms : List Text) (m : Text) → joined (ms ++ (m ∷ [])) ≡ joined ms ++ m
joined-append [] m = append-nil m
joined-append (x ∷ ms) m =
    ap (λ r. x ++ r) (joined-append ms m) ∙ sym (append_assoc x (joined ms) m)

pub all_fit-append :
    (n : ℕ) (ms : List Text) (m : Text)
    → all_fit n ms ≡ true
    → length m ≤ n
    → all_fit n (ms ++ (m ∷ [])) ≡ true
all_fit-append n [] m h k = ground arith
all_fit-append n (x ∷ ms) m h k = ground (arith, all_fit-append n ms m)

pub ink-blanks : (s : Text) → ink (drop (blanks s) s) ≡ ink s
unfolding keep
ink-blanks [] = refl
ink-blanks (c ∷ s) = ground (arith, ink-blanks s)

last_from-bound :
    (p : ℕ → Bool) (runes : Text) (low n i : ℕ) → last_from p runes low n ≡ some i → i < low + n
unfolding last_from
last_from-bound p runes low zero i h = ground arith
last_from-bound p runes low (suc n) i h = ground (arith, last_from-bound p runes low n i)

pub effective_limit-bound :
    (n : ℕ) → (1 ≤ effective_limit (suc n)) × (effective_limit (suc n) ≤ suc n)
effective_limit-bound n = ground arith

beyond-bound :
    (start : ℕ) (found : Option ℕ) (i : ℕ)
    → beyond start found ≡ some i
    → (start < i) × (found ≡ some i)
beyond-bound start none i h = ground arith
beyond-bound start (some k) i h = ground arith

pub find_last_in_range-bound :
    (p : ℕ → Bool) (runes : Text) (start stop window i : ℕ)
    → start ≤ stop
    → find_last_in_range p runes start stop window ≡ some i
    → i < stop
unfolding find_last_in_range
find_last_in_range-bound p runes start stop window i o h =
    let low = max (stop - window) start in
    let k : i < low + (stop - low) = last_from-bound p runes low (stop - low) i h in ground arith

first_or :
    (a b : Option ℕ) (i : ℕ)
    → (elim a as (λ _. Option ℕ) [ some k ↦ some k | none ↦ b ]) ≡ some i
    → (a ≡ some i) ⊎ (b ≡ some i)
first_or (some k) b i h = inl h
first_or none b i h = inr h

pub natural_break-bound :
    (runes : Text) (start stop i : ℕ)
    → start ≤ stop
    → natural_break runes start stop ≡ some i
    → (start < i) × (i < stop)
unfolding natural_break
natural_break-bound runes start stop i o h =
    let newline = find_last_in_range is_newline runes start stop 200 in
    let space = find_last_in_range is_space runes start stop 100 in
    elim (first_or (beyond start newline) (beyond start space) i h) [
      | inl e ↦
          let (behind, found) = beyond-bound start newline i e in
          (behind, find_last_in_range-bound is_newline runes start stop 200 i o found)
      | inr e ↦
          let (behind, found) = beyond-bound start space i e in
          (behind, find_last_in_range-bound is_space runes start stop 100 i o found)
    ]

pub unclosed_from-none :
    (runes : Text) (i n : ℕ)
    → ((k : ℕ) → is_fence runes k ≡ false)
    → unclosed_from runes i n none ≡ none
unfolding unclosed_from
unclosed_from-none runes i zero h = refl
unclosed_from-none runes i (suc zero) h = refl
unclosed_from-none runes i (suc (suc zero)) h = refl
unclosed_from-none runes i (suc (suc (suc n))) h =
    rw (unclosed_from, h i) (unclosed_from-none runes (i + 1) (suc (suc n)) h)

pub chunk_end-bound :
    (n : ℕ) (s : SplitState)
    → (s.start < chunk_end (suc n) s) × (chunk_end (suc n) s ≤ s.start + suc n)
unfolding chunk_end
chunk_end-bound n s =
    let (low, high) = effective_limit-bound n in
    let stop = s.start + effective_limit (suc n) in
    go stop (natural_break s.runes s.start stop) (omega arith) (omega arith)
      (λ i h. natural_break-bound s.runes s.start stop i (omega arith) h)
  where
    go :
        (stop : ℕ) (found : Option ℕ)
        → s.start < stop
        → stop ≤ s.start + suc n
        → ((i : ℕ) → found ≡ some i → (s.start < i) × (i < stop))
        → (s.start < (elim found as (λ _. ℕ) [ some i ↦ i | none ↦ stop ]))
          × ((elim found as (λ _. ℕ) [ some i ↦ i | none ↦ stop ]) ≤ s.start + suc n)
    go stop none a b f = (a, b)
    go stop (some i) a b f = let (c, d) = f i refl in (c, omega arith)

-- The state after `advance` to a position behind the start.
pub advance-behind :
    (max_len : ℕ) (s : SplitState) (stop : ℕ)
    → s.start < stop
    → advance max_len s stop
      ≡ again (record s {
        start = stop + blanks (drop stop s.runes);
        messages = s.messages ++ (slice s.runes s.start stop ∷ []);
      })
unfolding advance
advance-behind max_len s stop h = let e : leb stop s.start ≡ false = ground arith in rw e refl
