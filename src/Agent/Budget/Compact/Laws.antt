-- ===== src/Agent/Budget/Compact/Laws.antt =====
-- What compactToBudget of pkg/agent/context_budget.go returns.
use suprclaw_engine.Prelude.{
  ℕ, zero, suc, ◌+◌, ◌≤◌, ◌<◌, ◌≡◌, ◌⊎◌, inl, inr, refl, Bool, true, false, ◌&&◌, not, List, [],
  ◌∷◌, Option, leb, nat_eq, list_eq, take, is_nil, arith, Bool-cases,
}
use mathlib.Core.Bool.{true≢false}
use suprclaw_engine.Prelude.Text.{Text}
use suprclaw_engine.Prelude.Unicode.{Unicode}
use suprclaw_engine.Providers.Candidates.{FallbackCandidate}
use suprclaw_engine.Providers.Message.{Message}
use suprclaw_engine.Agent.Float.{Float64}
use suprclaw_engine.Agent.Budget.{
  ContextGuardConfig, OptionValue, AgentInstance, amount, normalize_context_guard, turn_budget,
}
use suprclaw_engine.Agent.Budget.Bounds.{amount-positive_or}
use suprclaw_engine.Agent.Budget.Estimate.{estimate_input_tokens}
use suprclaw_engine.Agent.Budget.Compact.{
  CompactionStage, TurnSession, LoopState, Compaction, compacted, budget_unfit, run_stage,
  run_stages, stages_of, with_triggered, after_stage, compact_to_budget,
}

module _ ⦃f : Float64⦄ ⦃u : Unicode⦄ (summarize_session : TurnSession → TurnSession)
    (build_messages : TurnSession → List Message) where
  -- Messages within the limit, or the error that the last estimate is over it, which is counted.
  abbrev pub Settles : ℕ → ℕ → LoopState × Compaction → Type 0
  Settles limit unfit (st, compacted working) =
      ((estimate_input_tokens working).0 ≤ limit) × (st.context_budget_unfit_total ≡ unfit)
  Settles limit unfit (st, budget_unfit predicted l) =
      (l ≡ limit) × (limit < predicted) × (st.context_budget_unfit_total ≡ unfit + 1)

  run_stages-Settles :
      (guard : ContextGuardConfig f.Ratio) (limit : ℕ) (stages : List CompactionStage)
      (predicted : ℕ) (st : LoopState) (working : List Message)
      → (is_nil stages ≡ false) ⊎ (limit < predicted)
      → Settles limit st.context_budget_unfit_total
          (run_stages summarize_session build_messages guard limit stages predicted st working)
  unfolding run_stages
  run_stages-Settles guard limit [] predicted st working (inl h) = absurd (true≢false h)
  run_stages-Settles guard limit [] predicted st working (inr h) = (refl, h, refl)
  run_stages-Settles guard limit (stage ∷ stages) predicted st working h =
      let session : TurnSession =
        (run_stage summarize_session build_messages guard stage st.session working).0 in
      let next : List Message =
        (run_stage summarize_session build_messages guard stage st.session working).1 in
      let changed : Bool =
        (run_stage summarize_session build_messages guard stage st.session working).2 in
      let now : ℕ = (estimate_input_tokens next).0 in
      let after : LoopState = after_stage summarize_session build_messages session changed st in
      elim (Bool-cases (leb now limit)) [
        | inl e ↦ rw e (ground arith, refl)
        | inr e ↦ rw e (run_stages-Settles guard limit stages now after next (inr (ground arith)))
      ]

  -- How a call with a disabled guard ends, or one with an enabled guard.
  abbrev pub Ends : Bool → List Message → ℕ → ℕ → LoopState × Compaction → Type 0
  Ends true messages limit unfit r = Settles limit unfit r
  Ends false messages limit unfit (st, r) =
      (r ≡ compacted messages) × (st.context_budget_unfit_total ≡ unfit)

  some_stage :
      (force : Bool) (n : ℕ)
      → 0 < n
      → is_nil (take n (stages_of summarize_session build_messages force)) ≡ false
  some_stage force zero h = absurd (omega arith)
  some_stage true (suc n) h = refl
  some_stage false (suc n) h = refl

  some_pass :
      (g : ContextGuardConfig f.Ratio)
      → 0 < amount (normalize_context_guard g).max_compaction_passes
  unfolding normalize_context_guard
  some_pass g = amount-positive_or 3 g.max_compaction_passes (omega arith)

  -- With an enabled guard, a call of `compactToBudget` returns messages whose estimate is within
  -- the limit of the turn, or fails with that limit and a last estimate that is over it, and counts
  -- exactly the failures; with a disabled guard it returns the messages as they are and counts no
  -- failure.
  pub compact_to_budget-Ends :
      (agent : AgentInstance f.Ratio) (llm_opts : Text → Option (OptionValue f.Ratio))
      (candidates : List FallbackCandidate) (force : Bool) (st : LoopState)
      (messages : List Message)
      → Ends
          (normalize_context_guard agent.context_guard).enabled
          messages
          (turn_budget agent llm_opts candidates).effective_input_limit
          st.context_budget_unfit_total
          (compact_to_budget summarize_session build_messages agent llm_opts candidates force st
            messages)
  unfolding compact_to_budget normalize_context_guard run_stages run_stage
  compact_to_budget-Ends agent llm_opts candidates force st messages =
      let guard : ContextGuardConfig f.Ratio = normalize_context_guard agent.context_guard in
      let limit : ℕ = (turn_budget agent llm_opts candidates).effective_input_limit in
      let predicted : ℕ = (estimate_input_tokens messages).0 in
      let stages : List CompactionStage =
        take (amount guard.max_compaction_passes)
          (stages_of summarize_session build_messages force) in
      elim (Bool-cases guard.enabled) [
        | inr e ↦ rw e (refl, refl)
        | inl e ↦ elim (Bool-cases (leb predicted limit && not force)) [
          | inl fits ↦ rw (e, fits) (ground arith, refl)
          | inr over ↦
              rw (e, over)
                (run_stages-Settles guard limit stages predicted
                  (with_triggered summarize_session build_messages st) messages
                  (inl (
                    some_stage force (amount guard.max_compaction_passes)
                      (some_pass agent.context_guard))))
        ]
      ]
