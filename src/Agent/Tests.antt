-- ===== src/Agent/Tests.antt =====
-- Runs of the code of the agent, and its theorems at concrete data.
use mathlib.Core.List.{Sublistᴰ}
use suprclaw_engine.Prelude.{
  ◌+◌, ℕ, suc, ◌-◌, ◌<◌, ◌≡◌, refl, true, false, List, [], ◌∷◌, ◌++◌, Option, none, some, nat_eq,
  list_eq, length, keep, arith,
}
use suprclaw_engine.Prelude.Int.{pos, int_end, signed}
use suprclaw_engine.Prelude.Text.{Text, codes, trim_left, trim_right, byte_length}
use suprclaw_engine.Prelude.Unicode.{trim_space}
use suprclaw_engine.Prelude.Unicode.Ascii.{ascii}
use suprclaw_engine.Providers.Message.{Message}
use suprclaw_engine.Agent.Float.Hundredths.{hundredths}
use suprclaw_engine.Agent.History.{
  kind, sanitize_history_for_provider, first_pass, second_pass, found_assistant, tool_run,
  filter_results, keep_turn,
}
use suprclaw_engine.Agent.History.Coherence.{IsCoherent}
use suprclaw_engine.Agent.History.Linked.{sanitize_history_for_provider-IsCoherent}
use suprclaw_engine.Agent.History.Fixed.{sanitize_history_for_provider_id}
use suprclaw_engine.Agent.History.Kept.{is_user, sanitize_history_for_provider-kept}
use suprclaw_engine.Agent.Messages.{
  saying, build_messages, IsPrompt, system_turn, build_messages-IsPrompt,
}
use suprclaw_engine.Agent.Dispatch.{dispatch_messages, has_conversation, dispatch_messages-IsPrompt}
use suprclaw_engine.Agent.Budget.{
  amount, ContextGuardConfig, AgentInstance, OptionValue, normalize_context_guard,
  compute_context_budget, turn_budget, get_requested_output_tokens, resolve_context_window_for_turn,
  widest_window,
}
use suprclaw_engine.Agent.Budget.Bounds.{IsTurnBudget, turn_budget-IsTurnBudget}
use suprclaw_engine.Agent.Budget.Prune.{trim_before, prune_low_value_historical_payloads}
use suprclaw_engine.Agent.Budget.Prune.Laws.{IsPruned, prune_low_value_historical_payloads-IsPruned}
use suprclaw_engine.Agent.Budget.Emergency.{emergency_trim_messages}
use suprclaw_engine.Agent.Budget.Emergency.Laws.{IsKept}
use suprclaw_engine.Agent.Budget.Emergency.Trimmed.{emergency_trim_messages-IsKept}
use suprclaw_engine.Agent.Budget.Compact.{TurnSession, LoopState, compact_to_budget}
use suprclaw_engine.Agent.Budget.Compact.Laws.{Ends, compact_to_budget-Ends}
use suprclaw_engine.Agent.Budget.Compact.Prompts.{PromptResult, compact_to_budget-IsPrompt}
use suprclaw_engine.Agent.Summary.{Reply, replied, summarize_session, valid_messages}
use suprclaw_engine.Agent.Summary.Laws.{
  appended, IsSummarized, summarize_session-IsSummarized, summarize_session-forgets,
}

abbrev hello : Message
hello = saying (codes "user") (codes "hello") []

abbrev answer : Message
answer = saying (codes "assistant") (codes "well") []

-- An assistant message that calls a tool, and a result with an id.
abbrev calling : Text → Message
calling id = record {
  role = codes "assistant";
  content = [];
  media = [];
  reasoning_content = [];
  usage = none;
  tool_calls =
      record { id = id; type = codes "function"; function = none; name = codes "exec" } ∷ [];
  tool_call_id = [];
}

abbrev result : Text → Message
result id = record {
  role = codes "tool";
  content = codes "done";
  media = [];
  reasoning_content = [];
  usage = none;
  tool_calls = [];
  tool_call_id = id;
}

-- A result without a call, a call with its result and another one, and a call without its result.
abbrev talk : List Message
talk =
    result (codes "z")
    ∷ hello
    ∷ calling (codes "a")
    ∷ result (codes "a")
    ∷ result (codes "z")
    ∷ answer
    ∷ hello
    ∷ calling (codes "b")
    ∷ []

sanitize_runs :
    sanitize_history_for_provider talk
    ≡ (hello ∷ calling (codes "a") ∷ result (codes "a") ∷ answer ∷ hello ∷ [])
unfolding sanitize_history_for_provider first_pass second_pass found_assistant tool_run
    filter_results keep_turn kind trim_space trim_left trim_right list_eq nat_eq
sanitize_runs = refl

sanitize_history_for_provider-IsCoherent_example :
    IsCoherent false (sanitize_history_for_provider talk)
sanitize_history_for_provider-IsCoherent_example = sanitize_history_for_provider-IsCoherent talk

sanitize_history_for_provider-kept_example :
    Sublistᴰ (sanitize_history_for_provider talk) talk
    × (keep is_user (sanitize_history_for_provider talk) ≡ keep is_user talk)
sanitize_history_for_provider-kept_example = sanitize_history_for_provider-kept talk

sanitize_history_for_provider_id_example :
    sanitize_history_for_provider (sanitize_history_for_provider talk)
    ≡ sanitize_history_for_provider talk
sanitize_history_for_provider_id_example =
    sanitize_history_for_provider_id (sanitize_history_for_provider talk)
      (sanitize_history_for_provider-IsCoherent talk)

abbrev build : TurnSession → List Message
build session =
    build_messages (codes "You are a claw.") (codes "Now.") [] session.history session.summary [] []

abbrev session : TurnSession
session = record { summary = codes "They met."; history = talk }

build-IsPrompt : (session : TurnSession) → IsPrompt (build session)
build-IsPrompt session =
    build_messages-IsPrompt (codes "You are a claw.") (codes "Now.") [] session.history
      session.summary [] []

dispatch_messages-IsPrompt_example :
    IsPrompt (dispatch_messages (build session) (codes "hello"))
    × (has_conversation (dispatch_messages (build session) (codes "hello")) ≡ true)
dispatch_messages-IsPrompt_example =
    dispatch_messages-IsPrompt (build session) (codes "hello") (build-IsPrompt session)

-- A guard that is switched on and otherwise left to its defaults.
abbrev guard : ContextGuardConfig ℕ
guard = record {
  enabled = true;
  safety_margin_tokens = pos 0;
  target_input_ratio = 0;
  precheck_trigger_ratio = 0;
  emergency_input_ratio = 50;
  max_compaction_passes = pos 0;
  preserve_recent_messages = pos 1;
  debug_dump = false;
}

abbrev agent : AgentInstance ℕ
agent = record {
  context_window = 0;
  candidate_context_windows = λ key. 0;
  max_tokens = pos 100;
  context_guard = guard;
}

abbrev no_options : Text → Option (OptionValue ℕ)
no_options key = none

-- The window is widened to what the answer, the margin and 1024 tokens of input take.
limit_runs : (turn_budget agent no_options []).effective_input_limit ≡ 1024
unfolding turn_budget compute_context_budget normalize_context_guard get_requested_output_tokens
    resolve_context_window_for_turn widest_window signed
limit_runs = refl

fitting_runs :
    (get_requested_output_tokens no_options agent.max_tokens
        + amount (normalize_context_guard agent.context_guard).safety_margin_tokens
        + 1024
      < int_end)
    × (widest_window agent [] agent.context_window < int_end)
unfolding normalize_context_guard get_requested_output_tokens widest_window
fitting_runs = (omega arith, omega arith)

turn_budget-IsTurnBudget_example :
    IsTurnBudget agent no_options [] (turn_budget agent no_options [])
turn_budget-IsTurnBudget_example =
    turn_budget-IsTurnBudget agent no_options [] fitting_runs.0 fitting_runs.1
      (omega (arith, limit_runs))

-- With as many tokens of output as an `int` holds, the sums wrap, and the limit of the input
-- is larger than any window.
wrapped_limit_runs :
    (turn_budget
      (record agent { max_tokens = pos 9223372036854775807 })
      no_options
      []).effective_input_limit
    ≡ 9_223_372_036_854_773_761
unfolding turn_budget compute_context_budget normalize_context_guard get_requested_output_tokens
    resolve_context_window_for_turn widest_window signed
wrapped_limit_runs = refl

abbrev system : Message
system = saying (codes "system") (codes "You are a claw.") []

prune_low_value_historical_payloads-IsPruned_example :
    (h' : List Message) × ((prune_low_value_historical_payloads (system ∷ talk) (pos 2)).0
      ≡ system ∷ h')
    × IsPruned
        (trim_before (system ∷ talk) (pos 2) - 1)
        talk
        h'
        (prune_low_value_historical_payloads (system ∷ talk) (pos 2)).1
prune_low_value_historical_payloads-IsPruned_example =
    prune_low_value_historical_payloads-IsPruned system talk (pos 2)

emergency_trim_messages-IsKept_example :
    (kept : List Message) × (emergency_trim_messages (system ∷ talk) 50 (pos 1) ≡ system ∷ kept)
    × IsCoherent false kept
    × IsKept talk kept
emergency_trim_messages-IsKept_example =
    emergency_trim_messages-IsKept system talk 50 (pos 1) (system_turn (codes "You are a claw."))
      (omega arith)

-- A model that calls everything fine, and how often it was asked.
abbrev chat : ℕ → Text → ℕ × Reply
chat asked prompt = (suc asked, replied (codes "fine"))

-- Nobody else uses the session.
abbrev alone : ℕ → TurnSession → TurnSession
alone asked s = s

abbrev id : TurnSession → TurnSession
id s = s

abbrev summarize : TurnSession → TurnSession
summarize s = (summarize_session chat alone id 1000 0 s).1

abbrev start : LoopState
start = record {
  session = session;
  compaction_triggered_total = 0;
  compaction_stage_fail_total = 0;
  context_budget_unfit_total = 0;
}

compact_to_budget-Ends_example :
    Ends summarize build
      (normalize_context_guard agent.context_guard).enabled
      (build session)
      (turn_budget agent no_options []).effective_input_limit
      0
      (compact_to_budget summarize build agent no_options [] true start (build session))
compact_to_budget-Ends_example =
    compact_to_budget-Ends summarize build agent no_options [] true start (build session)

compact_to_budget-IsPrompt_example :
    PromptResult (compact_to_budget summarize build agent no_options [] true start (build session))
compact_to_budget-IsPrompt_example =
    compact_to_budget-IsPrompt summarize build agent no_options [] true start (build session)
      build-IsPrompt (build-IsPrompt session)

-- An answer whose usage the provider reported.
abbrev counted : Message
counted = record {
  role = codes "assistant";
  content = codes "well";
  media = [];
  reasoning_content = [];
  usage = some (record { prompt_tokens = 7; completion_tokens = 3; total_tokens = 10 });
  tool_calls = [];
  tool_call_id = [];
}

abbrev four : List Message
four = hello ∷ answer ∷ hello ∷ answer ∷ []

abbrev long_talk : List Message
long_talk = four ++ (four ++ (four ++ four))

long_runs :
    10 < length (valid_messages 1000 (record { summary = codes "They met."; history = long_talk }))
unfolding keep byte_length list_eq nat_eq
long_runs = omega arith

-- While the model is asked, a message arrives.
abbrev interrupted : ℕ → TurnSession → TurnSession
interrupted asked s = appended s (hello ∷ [])

abbrev talk_session : TurnSession
talk_session = record { summary = []; history = long_talk }

summarize_session-IsSummarized_example :
    IsSummarized chat talk_session
      (hello ∷ [])
      []
      (summarize_session chat interrupted (λ s. appended s []) 1000 0 talk_session).1
summarize_session-IsSummarized_example =
    summarize_session-IsSummarized chat interrupted (λ s. appended s []) 1000 0 talk_session
      (hello ∷ []) [] (λ _. refl) (λ _. refl)

summarize_session-forgets_example :
    summarize_session chat interrupted id 1000 0
      (record { summary = codes "They met."; history = long_talk })
    ≡ summarize_session chat interrupted id 1000 0 (record { summary = []; history = long_talk })
summarize_session-forgets_example =
    summarize_session-forgets chat interrupted id 1000 0 (codes "They met.") [] long_talk
      (λ _. refl) long_runs
