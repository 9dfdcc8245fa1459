-- ===== src/Hooks/Examples.antt =====
-- Runs of the hook engine and its registry at concrete inputs.
use qwen_harness.Prelude.{
  max, Bool, true, false, List, [], ◌∷◌, Option, none, some, Text, str, text_eq, starts_with, keep,
  ◌≡◌, refl, if◌then◌else◌,
}
use qwen_harness.Policy.Effect.{Outcome}
use qwen_harness.Hooks.Outcome.{HookEvent, HookReason, HookOutcome, HandlerResult, HookFailureKind}
use qwen_harness.Hooks.Registration.{HookHandler, HookRegistration, HookInvocation, ℤ}
use qwen_harness.Hooks.Invoke.{Wire, Settled, invoke}
use qwen_harness.Policy.Paths.Glob.{test}
use qwen_harness.Hooks.Fold.{rank, run_inner}
use qwen_harness.Hooks.Fold.Ladder.{strictest, run_inner-rank}
use qwen_harness.Hooks.Fold.Attribution.{audit_of, run_inner-audit}
use qwen_harness.Hooks.Registry.{
  HookRegistry, register, unregister, for_event, matching, applicable, matcher_applies,
}
use qwen_harness.Hooks.Registry.Order.{IsOrdered, has_priority, registrations}
use qwen_harness.Hooks.Registry.Buckets.{RegistryCall, after_calls, matching-order}
use qwen_harness.Hooks.Registry.Removal.{for_event-unregister}
use qwen_harness.Hooks.Reentry.{
  HookEngine, EngineStep, Reachable, new_engine, entered, is_refused, stop_count,
  Reachable-IsGuarded,
}

abbrev why : HookReason
why = record { code = str "hook"; message = str "why" }

abbrev hook : Text → HookOutcome → Option ℤ → HookRegistration
hook id outcome priority = record {
  id = id;
  event = HookEvent.pre_tool_use;
  handler = HookHandler.function outcome;
  matcher = none;
  priority = priority;
}

abbrev asking : HookRegistration
asking = hook (str "ask") (HookOutcome.ask why) none

abbrev blocking : HookRegistration
blocking = hook (str "block") (HookOutcome.block why) (some (ℤ.negsuc 0))

abbrev allowing : HookRegistration
allowing = hook (str "allow") (HookOutcome.allow why) none

-- A platform that trims nothing and knows no JSON.
abbrev sample_wire : Wire
sample_wire = record { trim = λ t. t; parse_outcome = λ t. none }

abbrev answer : HookRegistration → HandlerResult
answer r = invoke sample_wire false Settled.handler r

abbrev clean : Text → Text × Bool
clean t = (t, false)

abbrev hooks : List HookRegistration
hooks = asking ∷ blocking ∷ allowing ∷ []

-- A hook's opinion to allow does not loosen a decision to ask.
allow_is_inert :
    (run_inner clean HookEvent.pre_tool_use answer Outcome.ask (allowing ∷ [])).decision
    ≡ Outcome.ask
unfolding run_inner invoke
allow_is_inert = refl

-- Behind a block nothing runs.
block_short_circuits :
    (run_inner clean HookEvent.pre_tool_use answer Outcome.allow hooks).ran_handlers ≡ 2
unfolding run_inner invoke
block_short_circuits = refl

-- A command that exits with a failure is recorded as one.
failing_command :
    (answer (record asking {
      handler =
          HookHandler.command
            (some (record {
              spawn_error = none;
              aborted = false;
              exit_code = some 1;
              stdout = [];
              stderr = [];
            }))
            none;
    }))
    ≡ HandlerResult.failure (record { kind = HookFailureKind.nonzero_exit; detail = none })
unfolding invoke
failing_command = refl

run_inner-rank_example :
    rank (run_inner clean HookEvent.pre_tool_use answer Outcome.allow hooks).decision
    ≡ max (rank Outcome.allow) (strictest HookEvent.pre_tool_use answer hooks)
run_inner-rank_example = run_inner-rank clean HookEvent.pre_tool_use answer Outcome.allow hooks

run_inner-audit_example :
    (run_inner clean HookEvent.pre_tool_use answer Outcome.allow hooks).audit
    ≡ audit_of HookEvent.pre_tool_use answer false hooks
run_inner-audit_example = run_inner-audit clean HookEvent.pre_tool_use answer Outcome.allow hooks

abbrev calls : List RegistryCall
calls = RegistryCall.added blocking ∷ RegistryCall.added asking ∷ []

abbrev call_of_tool : HookInvocation
call_of_tool = record {
  event = HookEvent.pre_tool_use;
  tool_name = some (str "bash");
  tool_input = none;
  paths = none;
  current_decision = none;
  payload = [];
  correlation_id = none;
}

-- The lower priority runs first, whatever the order of registration.
lower_priority_first : matching (after_calls calls) call_of_tool ≡ blocking ∷ asking ∷ []
unfolding matching register str text_eq
lower_priority_first = refl

matching-order_example :
    IsOrdered (matching (after_calls calls) call_of_tool)
    × (keep (has_priority (ℤ.pos 0)) (matching (after_calls calls) call_of_tool)
        ≡ keep (has_priority (ℤ.pos 0)) (
            registrations (
              keep
                (applicable call_of_tool)
                ((after_calls calls).by_event HookEvent.pre_tool_use))))
matching-order_example = matching-order calls call_of_tool (ℤ.pos 0)

abbrev with_allowing : HookRegistry
with_allowing = after_calls (RegistryCall.added allowing ∷ calls)

for_event-unregister_example :
    ((unregister with_allowing (str "allow")).0 ≡ true)
    × (for_event (unregister with_allowing (str "allow")).1 HookEvent.pre_tool_use
        ≡ for_event (after_calls calls) HookEvent.pre_tool_use)
unfolding register str text_eq
for_event-unregister_example =
    for_event-unregister calls allowing with_allowing HookEvent.pre_tool_use refl

abbrev stopping : HookEngine
stopping = entered new_engine HookEvent.stop

stopping-Reachable : Reachable stopping
unfolding is_refused
stopping-Reachable =
    Reachable.next Reachable.initial (EngineStep.enter new_engine HookEvent.stop refl)

Reachable-IsGuarded_example :
    stop_count stopping.in_flight ≡ (if stopping.stop_in_progress then 1 else 0)
Reachable-IsGuarded_example = Reachable-IsGuarded stopping-Reachable

-- A `**/` also matches inside a segment of the path.
segment_boundary_lost :
    matcher_applies
      (some
        (record { tool_name = none; path_glob = some (str "src/**/index.ts"); condition = none }))
      (record call_of_tool { paths = some (str "src/myindex.ts" ∷ []) })
    ≡ true
unfolding matcher_applies str starts_with test
segment_boundary_lost = refl
