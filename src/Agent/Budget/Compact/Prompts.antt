-- ===== src/Agent/Budget/Compact/Prompts.antt =====
-- What compactToBudget of pkg/agent/context_budget.go leaves of a prompt.
use suprclaw_engine.Prelude.{
  ℕ, ◌≡◌, refl, sym, ◌∙◌, ap, subst, Bool, false, ◌&&◌, not, List, [], ◌∷◌, Option, leb, nat_eq,
  list_eq, length, take, arith, Bool-cases, inl, inr,
}
use suprclaw_engine.Prelude.Int.{ℤ}
use suprclaw_engine.Prelude.Text.{Text}
use suprclaw_engine.Prelude.Unicode.{Unicode}
use suprclaw_engine.Providers.Candidates.{FallbackCandidate}
use suprclaw_engine.Providers.Message.{Message}
use suprclaw_engine.Agent.Float.{Float64}
use suprclaw_engine.Agent.History.{system_kind, kind}
use suprclaw_engine.Agent.History.Alike.{Alike-IsCoherent}
use suprclaw_engine.Agent.History.Coherence.{IsCoherent}
use suprclaw_engine.Agent.Messages.{IsPrompt, prompt}
use suprclaw_engine.Agent.Budget.{
  ContextGuardConfig, OptionValue, AgentInstance, amount, normalize_context_guard, turn_budget,
}
use suprclaw_engine.Agent.Budget.Estimate.{estimate_input_tokens}
use suprclaw_engine.Agent.Budget.Prune.{prune_low_value_historical_payloads}
use suprclaw_engine.Agent.Budget.Prune.Laws.{prune_low_value_historical_payloads-IsPruned}
use suprclaw_engine.Agent.Budget.Emergency.{emergency_trim_messages}
use suprclaw_engine.Agent.Budget.Emergency.Trimmed.{emergency_trim_messages-IsKept}
use suprclaw_engine.Agent.Budget.Compact.{
  CompactionStage, prune_stage, summary_stage, emergency_stage, TurnSession, LoopState, Compaction,
  compacted, budget_unfit, run_stage, run_stages, stages_of, with_triggered, after_stage,
  summarize_and_rebuild_messages, compact_to_budget,
}

module _ ⦃f : Float64⦄ ⦃u : Unicode⦄ where
  prune-IsPrompt :
      (l : List Message) (p : ℤ) → IsPrompt l → IsPrompt (prune_low_value_historical_payloads l p).0
  prune-IsPrompt l p (prompt system h _ k c e) =
      let (h', same, pruned) = prune_low_value_historical_payloads-IsPruned system h p in
      prompt system h' _ k (Alike-IsCoherent false h h' c pruned.alike)
        (ap (λ (l : List Message). (prune_low_value_historical_payloads l p).0) e ∙ same)

  long-IsPrompt :
      (system : Message) (h : List Message) (r : f.Ratio) (p : ℤ)
      → kind system ≡ system_kind
      → IsCoherent false h
      → IsPrompt (emergency_trim_messages (system ∷ h) r p)
  unfolding emergency_trim_messages
  long-IsPrompt system h r p k c = elim (Bool-cases (leb (length (system ∷ h)) 2)) [
    | inl short ↦ rw (emergency_trim_messages, short) (prompt system h _ k c refl)
    | inr long ↦
        let (kept, same, coherent, rest) =
          emergency_trim_messages-IsKept system h r p k (ground (arith, long)) in
        prompt system kept _ k coherent same
  ]

  emergency-IsPrompt :
      (l : List Message) (r : f.Ratio) (p : ℤ)
      → IsPrompt l
      → IsPrompt (emergency_trim_messages l r p)
  emergency-IsPrompt l r p (prompt system h _ k c e) =
      subst (λ l. IsPrompt (emergency_trim_messages l r p)) (sym e) (long-IsPrompt system h r p k c)

-- Messages that are returned are a prompt.
abbrev pub PromptResult : ⦃u : Unicode⦄ → LoopState × Compaction → Type 0
PromptResult (st, compacted working) = IsPrompt working
PromptResult (st, budget_unfit predicted limit) = Unit

module _ ⦃f : Float64⦄ ⦃u : Unicode⦄ (summarize_session : TurnSession → TurnSession)
    (build_messages : TurnSession → List Message) where
  run_stage-IsPrompt :
      (guard : ContextGuardConfig f.Ratio) (stage : CompactionStage) (session : TurnSession)
      (working : List Message)
      → ((session : TurnSession) → IsPrompt (build_messages session))
      → IsPrompt working
      → IsPrompt (run_stage summarize_session build_messages guard stage session working).1
  unfolding run_stage summarize_and_rebuild_messages
  run_stage-IsPrompt guard prune_stage session working b w =
      prune-IsPrompt working guard.preserve_recent_messages w
  run_stage-IsPrompt guard summary_stage session working b w = b (summarize_session session)
  run_stage-IsPrompt guard emergency_stage session working b w =
      emergency-IsPrompt working guard.emergency_input_ratio guard.preserve_recent_messages w

  run_stages-IsPrompt :
      (guard : ContextGuardConfig f.Ratio) (limit : ℕ) (stages : List CompactionStage)
      (predicted : ℕ) (st : LoopState) (working : List Message)
      → ((session : TurnSession) → IsPrompt (build_messages session))
      → IsPrompt working
      → PromptResult
          (run_stages summarize_session build_messages guard limit stages predicted st working)
  unfolding run_stages
  run_stages-IsPrompt guard limit [] predicted st working b w = tt
  run_stages-IsPrompt guard limit (stage ∷ stages) predicted st working b w =
      let session : TurnSession =
        (run_stage summarize_session build_messages guard stage st.session working).0 in
      let next : List Message =
        (run_stage summarize_session build_messages guard stage st.session working).1 in
      let changed : Bool =
        (run_stage summarize_session build_messages guard stage st.session working).2 in
      let now : ℕ = (estimate_input_tokens next).0 in
      let after : LoopState = after_stage summarize_session build_messages session changed st in
      let next_w = run_stage-IsPrompt guard stage st.session working b w in
      elim (Bool-cases (leb now limit)) [
        | inl e ↦ rw e next_w
        | inr e ↦ rw e (run_stages-IsPrompt guard limit stages now after next b next_w)
      ]

  -- Whichever stages run, messages that `compactToBudget` returns for a prompt, one system message
  -- and a coherent history, are a prompt again, if the messages that are built of a session always
  -- are.
  pub compact_to_budget-IsPrompt :
      (agent : AgentInstance f.Ratio) (llm_opts : Text → Option (OptionValue f.Ratio))
      (candidates : List FallbackCandidate) (force : Bool) (st : LoopState)
      (messages : List Message)
      → ((session : TurnSession) → IsPrompt (build_messages session))
      → IsPrompt messages
      → PromptResult (
          compact_to_budget summarize_session build_messages agent llm_opts candidates force st
            messages)
  unfolding compact_to_budget normalize_context_guard run_stages run_stage
  compact_to_budget-IsPrompt agent llm_opts candidates force st messages b w =
      let guard : ContextGuardConfig f.Ratio = normalize_context_guard agent.context_guard in
      let limit : ℕ = (turn_budget agent llm_opts candidates).effective_input_limit in
      let predicted : ℕ = (estimate_input_tokens messages).0 in
      let stages : List CompactionStage =
        take (amount guard.max_compaction_passes)
          (stages_of summarize_session build_messages force) in
      elim (Bool-cases guard.enabled) [
        | inr e ↦ rw e w
        | inl e ↦ elim (Bool-cases (leb predicted limit && not force)) [
          | inl fits ↦ rw (e, fits) w
          | inr over ↦
              rw (e, over)
                (run_stages-IsPrompt guard limit stages predicted
                  (with_triggered summarize_session build_messages st) messages b w)
        ]
      ]
