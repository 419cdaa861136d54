-- ===== src/Agent/Budget/Bounds.antt =====
-- The bounds of the budget of pkg/agent/context_budget.go.
use suprclaw_engine.Prelude.{
  ◌-◌, ◌*◌, ◌∙◌, max, ℕ, zero, suc, ◌+◌, ◌≤◌, ◌<◌, ◌≡◌, refl, ap, Bool, true, false, ◌||◌, List, [],
  ◌∷◌, Option, if◌then◌else◌, ltb, arith, All,
}
use suprclaw_engine.Prelude.Int.{ℤ, pos, negsuc, int_end, word_end, wrapped, signed}
use suprclaw_engine.Prelude.Text.{Text}
use suprclaw_engine.Prelude.Unicode.{Unicode}
use suprclaw_engine.Providers.Candidates.{FallbackCandidate}
use suprclaw_engine.Agent.Float.{Float64}
use suprclaw_engine.Agent.Budget.{
  ContextGuardConfig, ContextBudget, OptionValue, AgentInstance, amount, positive_or, is_zero_int,
  is_empty_guard, in_unit_or, normalize_context_guard, share, compute_context_budget,
  get_requested_output_tokens, window_of, widest_window, resolve_context_window_for_turn,
  turn_budget,
}

pub amount-positive_or : (d : ℕ) (z : ℤ) → 0 < d → 0 < amount (positive_or d z)
amount-positive_or d (pos zero) h = h
amount-positive_or d (pos (suc n)) h = omega arith
amount-positive_or d (negsuc n) h = h

-- A sum below 2 ^ 63 does not wrap.
amount-wrapped : (n : ℕ) → n < int_end → amount (signed (wrapped n)) ≡ n
unfolding signed
amount-wrapped n h = ground (arith, h)

effective_limit :
    (window n m : ℕ)
    → n + m + 1024 ≤ window
    → window < int_end
    → amount (signed (wrapped (window + 2 * word_end - n - m))) ≡ window - n - m
effective_limit window n m room below =
    let exact : wrapped (window + 2 * word_end - n - m) ≡ wrapped (window - n - m) = omega arith in
    ap (λ k. amount (signed k)) exact ∙ amount-wrapped (window - n - m) (omega arith)

pub positive_or_idem : (d : ℕ) (z : ℤ) → 0 < d → positive_or d (positive_or d z) ≡ positive_or d z
positive_or_idem (suc d) (pos zero) h = refl
positive_or_idem d (pos (suc n)) h = refl
positive_or_idem (suc d) (negsuc n) h = refl
positive_or_idem zero z h = absurd (omega arith)

not_zero-positive_or : (d : ℕ) (z : ℤ) → 0 < d → is_zero_int (positive_or d z) ≡ false
not_zero-positive_or (suc d) (pos zero) h = refl
not_zero-positive_or d (pos (suc n)) h = refl
not_zero-positive_or (suc d) (negsuc n) h = refl
not_zero-positive_or zero z h = absurd (omega arith)

module _ ⦃f : Float64⦄ where
  pub in_unit-in_unit_or :
      (n : ℕ) (r : f.Ratio) → 0 < n → n ≤ 100 → f.in_unit (in_unit_or (f.hundredths n) r) ≡ true
  in_unit-in_unit_or n r p b = ground (arith, f.in_unit-hundredths n p b)

  in_unit_or_idem :
      (n : ℕ) (r : f.Ratio)
      → 0 < n
      → n ≤ 100
      → in_unit_or (f.hundredths n) (in_unit_or (f.hundredths n) r) ≡ in_unit_or (f.hundredths n) r
  in_unit_or_idem n r p b = ground (arith, in_unit-in_unit_or n r p b)

  -- The guard is normalized before the budget is computed, and again there.
  pub normalize_context_guard_idem :
      (g : ContextGuardConfig f.Ratio)
      → normalize_context_guard (normalize_context_guard g) ≡ normalize_context_guard g
  unfolding normalize_context_guard
  normalize_context_guard_idem g = λ i. record {
    enabled =
        enabled_idem (g.enabled || is_empty_guard g) (is_empty_guard (normalize_context_guard g))
          not_empty i;
    safety_margin_tokens = positive_or_idem 2048 g.safety_margin_tokens (omega arith) i;
    target_input_ratio = in_unit_or_idem 78 g.target_input_ratio (omega arith) (omega arith) i;
    precheck_trigger_ratio =
        in_unit_or_idem 85 g.precheck_trigger_ratio (omega arith) (omega arith) i;
    emergency_input_ratio =
        in_unit_or_idem 60 g.emergency_input_ratio (omega arith) (omega arith) i;
    max_compaction_passes = positive_or_idem 3 g.max_compaction_passes (omega arith) i;
    preserve_recent_messages = positive_or_idem 6 g.preserve_recent_messages (omega arith) i;
    debug_dump = g.debug_dump;
  }
    where
      enabled_idem : (a b : Bool) → b ≡ false → a || b ≡ a
      enabled_idem a b e = ground arith

      not_empty : is_empty_guard (normalize_context_guard g) ≡ false
      not_empty = ground (arith, not_zero-positive_or 2048 g.safety_margin_tokens)

  margin_positive :
      (g : ContextGuardConfig f.Ratio) → 0 < amount (normalize_context_guard g).safety_margin_tokens
  unfolding normalize_context_guard
  margin_positive g = amount-positive_or 2048 g.safety_margin_tokens (omega arith)

  target_in_unit :
      (g : ContextGuardConfig f.Ratio)
      → f.in_unit (normalize_context_guard g).target_input_ratio ≡ true
  unfolding normalize_context_guard
  target_in_unit g = in_unit-in_unit_or 78 g.target_input_ratio (omega arith) (omega arith)

  pub trigger_in_unit :
      (g : ContextGuardConfig f.Ratio)
      → f.in_unit (normalize_context_guard g).precheck_trigger_ratio ≡ true
  unfolding normalize_context_guard
  trigger_in_unit g = in_unit-in_unit_or 85 g.precheck_trigger_ratio (omega arith) (omega arith)

  emergency_in_unit :
      (g : ContextGuardConfig f.Ratio)
      → f.in_unit (normalize_context_guard g).emergency_input_ratio ≡ true
  unfolding normalize_context_guard
  emergency_in_unit g = in_unit-in_unit_or 60 g.emergency_input_ratio (omega arith) (omega arith)

  share_le : (n : ℕ) (r : f.Ratio) → n < 9007199254740992 → f.in_unit r ≡ true → share n r ≤ n
  share_le n r b h = ground (arith, f.scale_le n r b h)

  share_positive : (n : ℕ) (r : f.Ratio) → 0 < n → 0 < share n r
  share_positive n r h = ground arith

  module _ ⦃u : Unicode⦄ where
    widest_window_start :
        (agent : AgentInstance f.Ratio) (cs : List FallbackCandidate) (n : ℕ)
        → n ≤ widest_window agent cs n
    unfolding widest_window
    widest_window_start agent [] n = omega arith
    widest_window_start agent (c ∷ cs) n =
        ground
          (arith, widest_window_start agent cs n, widest_window_start agent cs (window_of agent c))

    widest_window_covers :
        (agent : AgentInstance f.Ratio) (cs : List FallbackCandidate) (n b : ℕ)
        → widest_window agent cs n ≤ b
        → All (λ c. window_of agent c ≤ b) cs
    unfolding widest_window
    widest_window_covers agent [] n b h = tt
    widest_window_covers agent (c ∷ cs) n b h =
        let wider : ℕ = if ltb n (window_of agent c) then window_of agent c else n in
        (
          ground (arith, widest_window_start agent cs wider),
          widest_window_covers agent cs wider b h,
        )

    resolve_context_window_for_turn_lem :
        (agent : AgentInstance f.Ratio) (cs : List FallbackCandidate)
        (g : ContextGuardConfig f.Ratio) (n : ℕ)
        → n + amount g.safety_margin_tokens + 1024 < int_end
        → resolve_context_window_for_turn agent cs g n
          ≡ max
              (widest_window agent cs agent.context_window)
              (n + amount g.safety_margin_tokens + 1024)
    unfolding resolve_context_window_for_turn
    resolve_context_window_for_turn_lem agent cs g n h =
        rw (resolve_context_window_for_turn, amount-wrapped _ h) (ground arith)

    -- The budget of a turn.
    pub record IsTurnBudget (agent : AgentInstance f.Ratio)
        (llm_opts : Text → Option (OptionValue f.Ratio)) (candidates : List FallbackCandidate)
        (b : ContextBudget) : Type 0 where
      pub room : 1024 ≤ b.effective_input_limit
      pub sum :
          b.effective_input_limit + b.requested_output_tokens + b.safety_margin_tokens
          ≡ b.context_window
      pub requested :
          b.requested_output_tokens ≡ get_requested_output_tokens llm_opts agent.max_tokens
      pub margin : 0 < b.safety_margin_tokens
      pub target : (0 < b.target_input_tokens) × (b.target_input_tokens ≤ b.effective_input_limit)
      pub emergency :
          (0 < b.emergency_input_tokens) × (b.emergency_input_tokens ≤ b.effective_input_limit)
      pub widest :
          (agent.context_window ≤ b.context_window)
          × All (λ c. window_of agent c ≤ b.context_window) candidates

    -- If the output that the options ask for, the margin and 1024 add up to less than 2^63, and the
    -- windows of the agent and of the models are below 2^63, the budget of a turn leaves at least 1024
    -- tokens for the input, window, output, margin and input add up, the window is at least that of
    -- the agent and of each model that may answer, and the target and the emergency target are
    -- positive and within the limit, for limits below 2^53.
    pub turn_budget-IsTurnBudget :
        (agent : AgentInstance f.Ratio) (llm_opts : Text → Option (OptionValue f.Ratio))
        (cs : List FallbackCandidate)
        → get_requested_output_tokens llm_opts agent.max_tokens
            + amount (normalize_context_guard agent.context_guard).safety_margin_tokens
            + 1024
          < int_end
        → widest_window agent cs agent.context_window < int_end
        → (turn_budget agent llm_opts cs).effective_input_limit < 9007199254740992
        → IsTurnBudget agent llm_opts cs (turn_budget agent llm_opts cs)
    unfolding turn_budget compute_context_budget
    turn_budget-IsTurnBudget agent llm_opts cs fits windows h =
        let g : ContextGuardConfig f.Ratio = normalize_context_guard agent.context_guard in
        let n : ℕ = get_requested_output_tokens llm_opts agent.max_tokens in
        let m : ℕ = amount (normalize_context_guard g).safety_margin_tokens in
        let window : ℕ = resolve_context_window_for_turn agent cs g n in
        let same : m ≡ amount g.safety_margin_tokens =
          ap (λ (g : ContextGuardConfig f.Ratio). amount g.safety_margin_tokens)
            (normalize_context_guard_idem agent.context_guard) in
        let chosen = resolve_context_window_for_turn_lem agent cs g n fits in
        let room : n + m + 1024 ≤ window = ground (arith, chosen, same, fits, windows) in
        let below : window < int_end = ground (arith, chosen, fits, windows) in
        let widest : widest_window agent cs agent.context_window ≤ window =
          ground (arith, chosen) in
        let limit : amount (signed (wrapped (window + 2 * word_end - n - m))) ≡ window - n - m =
          effective_limit window n m room below in
        record {
          room = omega (arith, limit, room);
          sum = omega (arith, limit, room);
          requested = refl;
          margin = margin_positive (normalize_context_guard agent.context_guard);
          target =
              (share_positive _ _ (omega (arith, limit, room)), share_le _ _ h (target_in_unit g));
          emergency = (
            share_positive _ _ (omega (arith, limit, room)),
            share_le _ _ h (emergency_in_unit g),
          );
          widest = (
            omega (arith, widest, widest_window_start agent cs agent.context_window),
            widest_window_covers agent cs agent.context_window _ widest,
          );
        }
