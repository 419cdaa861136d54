-- ===== src/Agent/Budget/Compact.antt =====
-- pkg/agent/context_budget.go: compactToBudget and decideContextBudgetPrecheck.
pub mod Laws
pub mod Prompts
use suprclaw_engine.Prelude.{
  ℕ, zero, suc, ◌+◌, Bool, true, false, ◌&&◌, ◌||◌, not, List, [], ◌∷◌, Option, none, some,
  if◌then◌else◌, leb, ◌==◌, nat_eq, list_eq, length, take,
}
use suprclaw_engine.Prelude.Text.{Text}
use suprclaw_engine.Prelude.Unicode.{Unicode}
use suprclaw_engine.Providers.Candidates.{FallbackCandidate}
use suprclaw_engine.Providers.Message.{Message}
use suprclaw_engine.Agent.Float.{Float64}
use suprclaw_engine.Agent.Budget.{
  ContextGuardConfig, ContextBudget, OptionValue, AgentInstance, amount, normalize_context_guard,
  turn_budget,
}
use suprclaw_engine.Agent.Budget.Estimate.{
  CountSource, usage_anchor, estimator, estimate_input_tokens,
}
use suprclaw_engine.Agent.Budget.Prune.{prune_low_value_historical_payloads}
use suprclaw_engine.Agent.Budget.Emergency.{emergency_trim_messages}

pub data CompactionStage : Type 0 where
  prune_stage : CompactionStage
  summary_stage : CompactionStage
  emergency_stage : CompactionStage

-- The session of the turn.
pub record TurnSession : Type 0 where
  pub summary : Text
  pub history : List Message

-- The session and the counters of the loop.
pub record LoopState : Type 0 where
  pub session : TurnSession
  pub compaction_triggered_total : ℕ
  pub compaction_stage_fail_total : ℕ
  pub context_budget_unfit_total : ℕ

-- The messages, or ErrCodeContextBudgetUnfit with the predicted tokens and the limit.
pub data Compaction : Type 0 where
  compacted : List Message → Compaction
  budget_unfit : ℕ → ℕ → Compaction

pub record ContextPrecheckDecision : Type 0 where
  pub should_run_precheck : Bool
  pub predicted_input_tokens : ℕ
  pub count_source : CountSource
  pub budget : ContextBudget

unfoldable pub messages_equal : List Message → List Message → Bool
messages_equal [] [] = true
messages_equal [] (b ∷ bs) = false
messages_equal (a ∷ as_) [] = false
messages_equal (a ∷ as_) (b ∷ bs) =
    a.role == b.role
    && a.content == b.content
    && a.tool_call_id == b.tool_call_id
    && length a.tool_calls == length b.tool_calls
    && messages_equal as_ bs

-- What is summed up of the session, and what the context builder makes of the session that is left.
module _ (summarize_session : TurnSession → TurnSession)
    (build_messages : TurnSession → List Message) where
  unfoldable pub summarize_and_rebuild_messages :
      TurnSession → List Message → TurnSession × List Message × Bool
  summarize_and_rebuild_messages before current =
      let after = summarize_session before in
      let rebuilt = build_messages after in
      (
        after,
        rebuilt,
        not (before.summary == after.summary)
            || not (messages_equal before.history after.history)
            || not (messages_equal current rebuilt),
      )

module _ ⦃f : Float64⦄ ⦃u : Unicode⦄ (summarize_session : TurnSession → TurnSession)
    (build_messages : TurnSession → List Message) where
  -- A stage: the session, the messages and whether they changed.
  unfoldable pub run_stage :
      ContextGuardConfig f.Ratio
      → CompactionStage
      → TurnSession
      → List Message
      → TurnSession × List Message × Bool
  run_stage guard prune_stage session working =
      let (next, changed) =
        prune_low_value_historical_payloads working guard.preserve_recent_messages in
      (session, next, changed)
  run_stage guard summary_stage session working =
      summarize_and_rebuild_messages summarize_session build_messages session working
  run_stage guard emergency_stage session working =
      let next =
        emergency_trim_messages working guard.emergency_input_ratio
          guard.preserve_recent_messages in
      (session, next, not (messages_equal working next))

  abbrev pub after_stage : TurnSession → Bool → LoopState → LoopState
  after_stage session changed st = record {
    session = session;
    compaction_triggered_total = st.compaction_triggered_total;
    compaction_stage_fail_total = st.compaction_stage_fail_total + (if changed then 0 else 1);
    context_budget_unfit_total = st.context_budget_unfit_total;
  }

  abbrev pub with_unfit : LoopState → LoopState
  with_unfit st = record {
    session = st.session;
    compaction_triggered_total = st.compaction_triggered_total;
    compaction_stage_fail_total = st.compaction_stage_fail_total;
    context_budget_unfit_total = st.context_budget_unfit_total + 1;
  }

  abbrev pub with_triggered : LoopState → LoopState
  with_triggered st = record {
    session = st.session;
    compaction_triggered_total = st.compaction_triggered_total + 1;
    compaction_stage_fail_total = st.compaction_stage_fail_total;
    context_budget_unfit_total = st.context_budget_unfit_total;
  }

  -- The passes that are left, with the tokens predicted last.
  unfoldable pub run_stages :
      ContextGuardConfig f.Ratio
      → ℕ
      → List CompactionStage
      → ℕ
      → LoopState
      → List Message
      → LoopState × Compaction
  run_stages guard limit [] predicted st working = (with_unfit st, budget_unfit predicted limit)
  run_stages guard limit (stage ∷ stages) predicted st working =
      let (session, next, changed) = run_stage guard stage st.session working in
      let predicted = (estimate_input_tokens next).0 in
      let after = after_stage session changed st in
      let rest = run_stages guard limit stages predicted after next in
      if leb predicted limit then (after, compacted next) else rest

  abbrev pub stages_of : Bool → List CompactionStage
  stages_of force_emergency =
      if force_emergency
      then emergency_stage ∷ []
      else prune_stage ∷ summary_stage ∷ emergency_stage ∷ []

  unfoldable pub compact_to_budget :
      AgentInstance f.Ratio
      → (Text → Option (OptionValue f.Ratio))
      → List FallbackCandidate
      → Bool
      → LoopState
      → List Message
      → LoopState × Compaction
  compact_to_budget agent llm_opts candidates force_emergency st messages =
      let guard = normalize_context_guard agent.context_guard in
      let limit = (turn_budget agent llm_opts candidates).effective_input_limit in
      let predicted = (estimate_input_tokens messages).0 in
      let stages = take (amount guard.max_compaction_passes) (stages_of force_emergency) in
      if not guard.enabled
      then (st, compacted messages)
      else if leb predicted limit && not force_emergency
      then (st, compacted messages)
      else run_stages guard limit stages predicted (with_triggered st) messages

abbrev pub is_usage_anchor : CountSource → Bool
is_usage_anchor usage_anchor = true
is_usage_anchor estimator = false

module _ ⦃f : Float64⦄ ⦃u : Unicode⦄ where
  unfoldable pub decide_context_budget_precheck :
      AgentInstance f.Ratio
      → (Text → Option (OptionValue f.Ratio))
      → List FallbackCandidate
      → Bool
      → List Message
      → ContextPrecheckDecision
  decide_context_budget_precheck agent llm_opts candidates force_emergency messages =
      let guard = normalize_context_guard agent.context_guard in
      let budget = turn_budget agent llm_opts candidates in
      let (predicted, source) = estimate_input_tokens messages in
      record {
        should_run_precheck =
            if not force_emergency && is_usage_anchor source
            then f.reaches predicted budget.effective_input_limit guard.precheck_trigger_ratio
            else true;
        predicted_input_tokens = predicted;
        count_source = source;
        budget = budget;
      }
