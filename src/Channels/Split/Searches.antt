-- ===== src/Channels/Split/Searches.antt =====
-- What the searches of pkg/channels/split.go find.
use suprclaw_engine.Prelude.{
  ℕ, zero, suc, ◌+◌, ◌≤◌, ◌<◌, ◌≡◌, refl, ◌∙◌, ap, Bool, true, false, not, [], ◌∷◌, ◌++◌, none,
  some, ◌==◌, ltb, nat_eq, length, all, arith, Bool-cases, inl, inr,
}
use suprclaw_engine.Prelude.Text.{Text}
use suprclaw_engine.Channels.Split.{
  is_newline, backtick, is_fence, rune_at, last_from, unclosed_from, closing_from, newline_from,
}

pub rune_at-append : (s t : Text) (i : ℕ) → i < length s → rune_at (s ++ t) i ≡ rune_at s i
unfolding rune_at
rune_at-append [] t i h = absurd (omega arith)
rune_at-append (c ∷ s) t zero h = refl
rune_at-append (c ∷ s) t (suc i) h = rune_at-append s t i (omega arith)

pub rune_at-all :
    (p : ℕ → Bool) (s : Text) (i : ℕ) → all p s ≡ true → i < length s → p (rune_at s i) ≡ true
unfolding rune_at
rune_at-all p [] i a h = absurd (omega arith)
rune_at-all p (c ∷ s) zero a h = ground arith
rune_at-all p (c ∷ s) (suc i) a h = rune_at-all p s i (ground arith) (omega arith)

pub rune_at-length : (s : Text) (c : ℕ) (t : Text) → rune_at (s ++ (c ∷ t)) (length s) ≡ c
unfolding rune_at
rune_at-length [] c t = refl
rune_at-length (x ∷ s) c t = rune_at-length s c t

pub last_from-none :
    (p : ℕ → Bool) (runes : Text) (low n : ℕ)
    → ((i : ℕ) → i < low + n → p (rune_at runes i) ≡ false)
    → last_from p runes low n ≡ none
unfolding last_from
last_from-none p runes low zero h = refl
last_from-none p runes low (suc n) h =
    rw (last_from, h (low + n) (omega arith))
      (last_from-none p runes low n (λ i k. h i (omega arith)))

pub unclosed_from-open :
    (runes : Text) (low n o : ℕ)
    → ((i : ℕ) → low ≤ i → i < low + n → is_fence runes i ≡ false)
    → unclosed_from runes low n (some o) ≡ some o
unfolding unclosed_from
unclosed_from-open runes low zero o h = refl
unclosed_from-open runes low (suc zero) o h = refl
unclosed_from-open runes low (suc (suc zero)) o h = refl
unclosed_from-open runes low (suc (suc (suc n))) o h =
    rw (unclosed_from, h low (omega arith) (omega arith))
      (unclosed_from-open runes (low + 1) (suc (suc n)) o
        (λ i a b. h i (omega arith) (omega arith)))

pub closing_from-late :
    (runes : Text) (bound i n k : ℕ)
    → ((j : ℕ) → i ≤ j → j < bound → is_fence runes j ≡ false)
    → closing_from runes i n ≡ some k
    → bound < k
unfolding closing_from
closing_from-late runes bound i zero k h e = ground arith
closing_from-late runes bound i (suc zero) k h e = ground arith
closing_from-late runes bound i (suc (suc zero)) k h e = ground arith
closing_from-late runes bound i (suc (suc (suc n))) k h e = ground (
  arith,
  h i,
  closing_from-late runes bound (i + 1) (suc (suc n)) k (λ j a b. h j (omega arith) b),
)

pub newline_from-found :
    (runes : Text) (i n e : ℕ)
    → ((j : ℕ) → i ≤ j → j < e → is_newline (rune_at runes j) ≡ false)
    → is_newline (rune_at runes e) ≡ true
    → i ≤ e
    → e < i + n
    → newline_from runes i n ≡ some e
unfolding newline_from
newline_from-found runes i zero e h at_e low high = absurd (omega arith)
newline_from-found runes i (suc n) e h at_e low high = elim (Bool-cases (ltb i e)) [
  | inl before ↦
      rw (newline_from, h i (omega arith) (ground arith))
        (newline_from-found runes (i + 1) n e (λ j a b. h j (omega arith) b) at_e (ground arith)
          (omega arith))
  | inr here ↦
      let same : i ≡ e = ground arith in
      let found : is_newline (rune_at runes i) ≡ true =
        ap (λ k. is_newline (rune_at runes k)) same ∙ at_e in
      rw (newline_from, found) (ap some same)
]

no_backtick :
    (s : Text) (i : ℕ) → all (λ c. not (c == backtick)) s ≡ true → (rune_at s i == backtick) ≡ false
unfolding rune_at nat_eq
no_backtick [] i h = refl
no_backtick (c ∷ s) zero h = ground arith
no_backtick (c ∷ s) (suc i) h = no_backtick s i (ground arith)

pub is_fence-none :
    (s : Text) → all (λ c. not (c == backtick)) s ≡ true → (i : ℕ) → is_fence s i ≡ false
unfolding is_fence
is_fence-none s h i = rw (no_backtick s i h) refl
