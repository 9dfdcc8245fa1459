-- ===== src/Runtime/Examples.antt =====
-- Runs of the budget tracker and of the turn machine at concrete inputs.
use qwen_harness.Prelude.{String, ◌≤◌, true, List, [], ◌∷◌, ◌≡◌, refl, str, text_eq}
use qwen_harness.Protocol.{TerminationReason}
use qwen_harness.Runtime.Budget.{BudgetTracker, stop, continue', default_budget, new_tracker}
use qwen_harness.Runtime.Budget.Limits.{
  TurnEvent, model_call, tool_call, model_round, tool_observed, run_events, run_events-bounded,
  model_calls_in, tool_calls_in, retries_in,
}
use qwen_harness.Runtime.TurnMachine.{TurnState, TerminalState, new_machine}
use qwen_harness.Runtime.TurnMachine.Paths.{
  TurnCall, run_calls, IsTraced, IsReasoned, run_calls-IsTraced,
}

abbrev fresh : BudgetTracker
fresh = new_tracker default_budget 1000

abbrev call_of : String → TurnEvent
call_of arguments_json = tool_observed (str "grep") (str arguments_json)

-- One round of a turn with one call of a tool.
abbrev one_round : List TurnEvent
one_round = model_call 2000 ∷ model_round true ∷ tool_call ∷ call_of "{a}" ∷ []

one_round_runs : run_events one_round fresh ≡ continue'
unfolding run_events new_tracker str text_eq
one_round_runs = refl

-- Two calls in turn are an oscillation at the sixth call.
oscillation_stops :
    run_events
      (call_of "{a}"
        ∷ call_of "{b}"
        ∷ call_of "{a}"
        ∷ call_of "{b}"
        ∷ call_of "{a}"
        ∷ call_of "{b}"
        ∷ [])
      fresh
    ≡ stop TerminationReason.oscillation
unfolding run_events new_tracker str text_eq
oscillation_stops = refl

run_events-bounded_example :
    (model_calls_in one_round ≤ 100)
    × (tool_calls_in one_round ≤ 1000)
    × (retries_in one_round ≤ 10)
run_events-bounded_example = run_events-bounded default_budget 1000 one_round one_round_runs

-- A turn that is approved, and then ends; the last call comes too late.
abbrev turn_calls : List TurnCall
turn_calls =
    TurnCall.transition_to TurnState.executing
    ∷ TurnCall.terminate_with TerminalState.completed TerminationReason.natural_completion
    ∷ TurnCall.transition_to TurnState.executing
    ∷ []

run_calls-IsTraced_example :
    IsTraced TurnState.awaiting_approval
      (run_calls (new_machine TurnState.awaiting_approval) turn_calls)
    × IsReasoned (run_calls (new_machine TurnState.awaiting_approval) turn_calls)
run_calls-IsTraced_example = run_calls-IsTraced TurnState.awaiting_approval turn_calls
