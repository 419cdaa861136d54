-- ===== src/Agent/Budget.antt =====
-- pkg/agent/context_budget.go: the guard, the budget of a turn and the window of the models. The sums
-- wrap at 64 bits, as Go's `int` does.
pub mod Bounds
pub mod Estimate
pub mod Order
pub mod Prune
pub mod Emergency
pub mod Compact
use suprclaw_engine.Prelude.{
  ℕ, zero, suc, ◌+◌, ◌-◌, Bool, true, false, ◌&&◌, ◌||◌, not, List, [], ◌∷◌, Option, none, some,
  if◌then◌else◌, ◌*◌, ltb, ◌==◌, nat_eq,
}
use suprclaw_engine.Prelude.Int.{ℤ, pos, negsuc, word_end, wrapped, signed}
use suprclaw_engine.Prelude.Text.{Text, codes}
use suprclaw_engine.Prelude.Unicode.{Unicode}
use suprclaw_engine.Providers.Candidates.{FallbackCandidate}
use suprclaw_engine.Providers.ModelRef.{model_key}
use suprclaw_engine.Agent.Float.{Float64}

-- `ContextGuardConfig` of pkg/config/config.go.
pub record ContextGuardConfig (Ratio : Type 0) : Type 0 where
  pub enabled : Bool
  pub safety_margin_tokens : ℤ
  pub target_input_ratio : Ratio
  pub precheck_trigger_ratio : Ratio
  pub emergency_input_ratio : Ratio
  pub max_compaction_passes : ℤ
  pub preserve_recent_messages : ℤ
  pub debug_dump : Bool

pub record ContextBudget : Type 0 where
  pub context_window : ℕ
  pub requested_output_tokens : ℕ
  pub safety_margin_tokens : ℕ
  pub effective_input_limit : ℕ
  pub target_input_tokens : ℕ
  pub emergency_input_tokens : ℕ

-- What `llmOpts` holds under a key.
pub data OptionValue (Ratio : Type 0) : Type 0 where
  int : ℤ → OptionValue Ratio
  int64 : ℤ → OptionValue Ratio
  float64 : Ratio → OptionValue Ratio
  other : OptionValue Ratio

-- The fields of `AgentInstance` that the budget reads. A model that the map does not name has
-- window 0.
pub record AgentInstance (Ratio : Type 0) : Type 0 where
  pub context_window : ℕ
  pub candidate_context_windows : Text → ℕ
  pub max_tokens : ℤ
  pub context_guard : ContextGuardConfig Ratio

-- A number that is set to 0 where it is negative.
abbrev pub amount : ℤ → ℕ
amount (pos n) = n
amount (negsuc n) = 0

abbrev pub is_zero_int : ℤ → Bool
is_zero_int (pos zero) = true
is_zero_int (pos (suc n)) = false
is_zero_int (negsuc n) = false

-- `if n <= 0 { n = fallback }`.
abbrev pub positive_or : ℕ → ℤ → ℤ
positive_or fallback (pos zero) = pos fallback
positive_or fallback (pos (suc n)) = pos (suc n)
positive_or fallback (negsuc n) = pos fallback

module _ ⦃f : Float64⦄ where
  -- `if r <= 0 || r > 1 { r = fallback }`.
  abbrev pub in_unit_or : f.Ratio → f.Ratio → f.Ratio
  in_unit_or fallback r = if f.in_unit r then r else fallback

  -- `guard == (config.ContextGuardConfig{})`.
  abbrev pub is_empty_guard : ContextGuardConfig f.Ratio → Bool
  is_empty_guard g =
      not g.enabled
      && is_zero_int g.safety_margin_tokens
      && f.is_zero g.target_input_ratio
      && f.is_zero g.precheck_trigger_ratio
      && f.is_zero g.emergency_input_ratio
      && is_zero_int g.max_compaction_passes
      && is_zero_int g.preserve_recent_messages
      && not g.debug_dump

  abbrev pub default_preserve_recent : ℕ
  default_preserve_recent = 6

  unfoldable pub normalize_context_guard : ContextGuardConfig f.Ratio → ContextGuardConfig f.Ratio
  normalize_context_guard guard = record {
    enabled = guard.enabled || is_empty_guard guard;
    safety_margin_tokens = positive_or 2048 guard.safety_margin_tokens;
    target_input_ratio = in_unit_or (f.hundredths 78) guard.target_input_ratio;
    precheck_trigger_ratio = in_unit_or (f.hundredths 85) guard.precheck_trigger_ratio;
    emergency_input_ratio = in_unit_or (f.hundredths 60) guard.emergency_input_ratio;
    max_compaction_passes = positive_or 3 guard.max_compaction_passes;
    preserve_recent_messages = positive_or default_preserve_recent guard.preserve_recent_messages;
    debug_dump = guard.debug_dump;
  }

  -- A share of the limit, or the limit where the share is nothing.
  abbrev pub share : ℕ → f.Ratio → ℕ
  share effective r = if ltb 0 (f.scale effective r) then f.scale effective r else effective

  unfoldable pub compute_context_budget : ℤ → ℤ → ContextGuardConfig f.Ratio → ContextBudget
  compute_context_budget context_window requested_output guard =
      let g = normalize_context_guard guard in
      let margin = amount g.safety_margin_tokens in
      let effective = amount (
        signed
          (wrapped (amount context_window + 2 * word_end - amount requested_output - margin))) in
      record {
        context_window = amount context_window;
        requested_output_tokens = amount requested_output;
        safety_margin_tokens = margin;
        effective_input_limit = effective;
        target_input_tokens = share effective g.target_input_ratio;
        emergency_input_tokens = share effective g.emergency_input_ratio;
      }

  -- The positive number that a value of `llmOpts` holds.
  abbrev pub requested_value : Option (OptionValue f.Ratio) → Option ℕ
  requested_value none = none
  requested_value (some (int n)) = if ltb 0 (amount n) then some (amount n) else none
  requested_value (some (int64 n)) = if ltb 0 (amount n) then some (amount n) else none
  requested_value (some (float64 x)) = if f.is_positive x then some (f.truncate x) else none
  requested_value (some other) = none

  -- A nil map holds nothing.
  unfoldable pub get_requested_output_tokens : (Text → Option (OptionValue f.Ratio)) → ℤ → ℕ
  get_requested_output_tokens llm_opts default_value =
      elim (requested_value (llm_opts (codes "max_tokens"))) [
        | none ↦ amount default_value
        | some n ↦ n
      ]

  module _ ⦃u : Unicode⦄ where
    abbrev pub window_of : AgentInstance f.Ratio → FallbackCandidate → ℕ
    window_of agent c = agent.candidate_context_windows (model_key c.provider c.model)

    unfoldable pub widest_window : AgentInstance f.Ratio → List FallbackCandidate → ℕ → ℕ
    widest_window agent [] max_window = max_window
    widest_window agent (c ∷ candidates) max_window =
        widest_window agent candidates
          (if ltb max_window (window_of agent c) then window_of agent c else max_window)

    -- A window is not negative, so that a sum that wraps to a negative one is not above it, as 0 is not.
    unfoldable pub resolve_context_window_for_turn :
        AgentInstance f.Ratio → List FallbackCandidate → ContextGuardConfig f.Ratio → ℕ → ℕ
    resolve_context_window_for_turn agent candidates guard requested_output =
        let max_window = widest_window agent candidates agent.context_window in
        let min_required =
          amount (signed (wrapped (requested_output + amount guard.safety_margin_tokens + 1024))) in
        if ltb max_window min_required then min_required else max_window

    -- The budget that `compactToBudget` and `decideContextBudgetPrecheck` compute first.
    unfoldable pub turn_budget :
        AgentInstance f.Ratio
        → (Text → Option (OptionValue f.Ratio))
        → List FallbackCandidate
        → ContextBudget
    turn_budget agent llm_opts candidates =
        let guard = normalize_context_guard agent.context_guard in
        let requested_output = get_requested_output_tokens llm_opts agent.max_tokens in
        let context_window =
          resolve_context_window_for_turn agent candidates guard requested_output in
        compute_context_budget (pos context_window) (pos requested_output) guard
