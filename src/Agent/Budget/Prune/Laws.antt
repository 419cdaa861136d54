-- ===== src/Agent/Budget/Prune/Laws.antt =====
-- What pruning leaves alone.
use suprclaw_engine.Prelude.{
  ◌⊎◌, inl, inr, Bool-cases, ℕ, zero, suc, ◌+◌, ◌-◌, ◌≤◌, ◌≡◌, refl, Bool, true, false, ◌||◌, not,
  List, [], ◌∷◌, leb, ◌==◌, nat_eq, list_eq, length, take, drop, all, length-append, length-take_le,
  arith,
}
use suprclaw_engine.Prelude.Int.{ℤ}
use suprclaw_engine.Prelude.Text.{Text, codes, byte_length, trim_left}
use suprclaw_engine.Prelude.Text.Laws.{length-trim_right, length-trim_left}
use suprclaw_engine.Prelude.Unicode.{Unicode, trim_space}
use suprclaw_engine.Providers.Message.{Message}
use suprclaw_engine.Agent.History.Alike.{Resays, Alike, Alike-self}
use suprclaw_engine.Agent.Budget.Prune.{
  compact_text, prune_message, prune_first, trim_before, prune_low_value_historical_payloads,
}

module _ ⦃u : Unicode⦄ where
  Resays-prune : (m : Message) → Resays m (prune_message m).0
  unfolding prune_message
  Resays-prune m = ground arith

  Alike-prune : (n : ℕ) (ms : List Message) → Alike ms (prune_first n ms).0
  unfolding prune_first
  Alike-prune zero ms = Alike-self ms
  Alike-prune (suc n) [] = tt
  Alike-prune (suc n) (m ∷ ms) = (Resays-prune m, Alike-prune n ms)

  drop-prune : (n : ℕ) (ms : List Message) → drop n (prune_first n ms).0 ≡ drop n ms
  unfolding prune_first
  drop-prune zero ms = refl
  drop-prune (suc n) [] = refl
  drop-prune (suc n) (m ∷ ms) = drop-prune n ms

  unchanged_message : (m : Message) → (prune_message m).1 ≡ false → (prune_message m).0 ≡ m
  unfolding prune_message
  unchanged_message m h = ground arith

  unchanged-prune :
      (n : ℕ) (ms : List Message) → (prune_first n ms).1 ≡ false → (prune_first n ms).0 ≡ ms
  unfolding prune_first
  unchanged-prune zero ms h = refl
  unchanged-prune (suc n) [] h = refl
  unchanged-prune (suc n) (m ∷ ms) h = ground (arith, unchanged_message m, unchanged-prune n ms)

  length-trim_space : (s : Text) → length (trim_space s) ≤ length s
  unfolding trim_space
  length-trim_space s =
      omega (arith, length-trim_right u.space (trim_left u.space s), length-trim_left u.space s)

  length-compact_text : (t : Text) (k : ℕ) (s : Text) → length (compact_text t k s) ≤ k + length s
  unfolding compact_text
  length-compact_text t k s = ground (
    arith,
    length-append (trim_space (take k t)) s,
    length-trim_space (take k t),
    length-take_le k t,
  )

  -- A message of a tool or of the assistant is short.
  abbrev pub is_short : Message → Bool
  is_short m =
      not (m.role == codes "tool" || m.role == codes "assistant")
      || leb (byte_length m.content) 1800
      || leb (length m.content) 850

  is_short-prune : (m : Message) → is_short (prune_message m).0 ≡ true
  unfolding prune_message
  is_short-prune m = ground (
    arith,
    length-compact_text m.content 450 (10 ∷ codes "[tool output truncated for context budget]"),
    length-compact_text m.content 800
        (10 ∷ codes "[assistant content truncated for context budget]"),
    length-compact_text m.content 300 (10 ∷ codes "[assistant tool preface truncated]"),
  )

  all_short-prune : (n : ℕ) (ms : List Message) → all is_short (take n (prune_first n ms).0) ≡ true
  unfolding prune_first
  all_short-prune zero ms = refl
  all_short-prune (suc n) [] = refl
  all_short-prune (suc n) (m ∷ ms) = ground (arith, is_short-prune m, all_short-prune n ms)

  -- What pruning does to the messages behind the first one; the first `n` of them are old.
  pub record IsPruned (n : ℕ) (h h' : List Message) (changed : Bool) : Type 0 where
    pub alike : Alike h h'
    pub recent : drop n h' ≡ drop n h
    pub short : all is_short (take n h') ≡ true
    pub reported : (h' ≡ h) ⊎ (changed ≡ true)

  reported-prune :
      (n : ℕ) (ms : List Message) → ((prune_first n ms).0 ≡ ms) ⊎ ((prune_first n ms).1 ≡ true)
  reported-prune n ms = elim (Bool-cases (prune_first n ms).1) [
    | inl e ↦ inr e
    | inr e ↦ inl (unchanged-prune n ms e)
  ]

  -- Pruning keeps the first message and the recent ones, changes nothing but the contents of the
  -- others, leaves every older message of a tool or of the assistant with at most 1800 bytes or at
  -- most 850 code points, and reports a change unless it returns the messages as they were.
  pub prune_low_value_historical_payloads-IsPruned :
      (first : Message) (h : List Message) (preserve_recent : ℤ)
      → (h' : List Message) × ((prune_low_value_historical_payloads (first ∷ h) preserve_recent).0
          ≡ first ∷ h')
        × IsPruned
            (trim_before (first ∷ h) preserve_recent - 1)
            h
            h'
            (prune_low_value_historical_payloads (first ∷ h) preserve_recent).1
  unfolding prune_low_value_historical_payloads
  prune_low_value_historical_payloads-IsPruned first h preserve_recent =
      let n = trim_before (first ∷ h) preserve_recent - 1 in
      (
        (prune_first n h).0,
        refl,
        record {
          alike = Alike-prune n h;
          recent = drop-prune n h;
          short = all_short-prune n h;
          reported = reported-prune n h;
        },
      )
