-- ===== src/Hooks/Fold.antt =====
-- packages/hooks/src/engine.ts: the fold of the outcomes of the hooks of one event.
pub mod Ladder
pub mod Steps
pub mod Attribution
use qwen_harness.Prelude.{
  ℕ, suc, ◌+◌, Bool, true, false, not, List, [], ◌∷◌, ◌++◌, Option, none, some, Text, ltb,
  if◌then◌else◌,
}
use qwen_harness.Policy.Effect.{Outcome}
use qwen_harness.Hooks.Outcome.{
  HookEvent, is_post_tool_event, is_stop, HookReason, HookOutcome, type_of, HandlerResult,
  AttributedReason, ModifiedInputProposal, InjectedContext, AttributedAnnotations, Elevation,
  IgnoredElevation, HookFailure, RecordedOutcome, HookInvocationRecord, FoldedHookResult,
}
use qwen_harness.Hooks.Registration.{HookRegistration, form_of}

unfoldable pub rank : Outcome → ℕ
rank Outcome.passthrough = 0
rank Outcome.allow = 0
rank Outcome.ask = 1
rank Outcome.deny = 2

unfoldable pub most_restrictive : Outcome → Outcome → Outcome
unfolding rank
most_restrictive current candidate =
    if ltb (rank current) (rank candidate) then candidate else current

-- `decision !== base`
unfoldable pub differs : Outcome → Outcome → Bool
differs Outcome.allow Outcome.allow = false
differs Outcome.ask Outcome.ask = false
differs Outcome.deny Outcome.deny = false
differs Outcome.passthrough Outcome.passthrough = false
differs _ _ = true

-- The accumulators of the loop.
pub record Fold : Type 0 where
  pub blocked : Bool
  pub block_reason : Option AttributedReason
  pub stopped : Bool
  pub stop_reason : Option AttributedReason
  pub stop_reentry_refused : Bool
  pub restriction : Outcome
  pub modifications : List ModifiedInputProposal
  pub injected_context : List InjectedContext
  pub annotations : List AttributedAnnotations
  pub ignored_elevations : List IgnoredElevation
  pub failures : List HookFailure
  pub audit : List HookInvocationRecord
  pub ran_handlers : ℕ

abbrev pub start_fold : Outcome → Fold
start_fold base = record {
  blocked = false;
  block_reason = none;
  stopped = false;
  stop_reason = none;
  stop_reentry_refused = false;
  restriction = base;
  modifications = [];
  injected_context = [];
  annotations = [];
  ignored_elevations = [];
  failures = [];
  audit = [];
  ran_handlers = 0;
}

-- `audit.push`
abbrev pub log : Fold → HookRegistration → RecordedOutcome → Fold
log f r o = record f {
  audit = f.audit ++ record { hook_id = r.id; form = form_of r.handler; outcome = o } ∷ [];
}

-- `stopped = true`, with the first reason kept
unfoldable pub stop_with : Fold → Option AttributedReason → Text → HookReason → Fold
stop_with f (some first) id reason = record f { stopped = true }
stop_with f none id reason = record f {
  stopped = true;
  stop_reason = some (record { hook_id = id; reason = reason });
}

abbrev pub ignore : Fold → Text → Elevation → HookReason → Fold
ignore f id requested reason = record f {
  ignored_elevations =
      f.ignored_elevations ++ record { hook_id = id; requested = requested; reason = reason } ∷ [];
}

-- `sanitize` of packages/protocol, with its options: the clean text, and whether it differs.
module _ (sanitize : Text → Text × Bool) (event : HookEvent) where
  unfoldable pub block_with : Fold → Text → HookReason → Fold
  unfolding is_post_tool_event stop_with most_restrictive
  block_with f id reason =
      if is_post_tool_event event then stop_with f f.stop_reason id reason else record f {
        blocked = true;
        block_reason = some (record { hook_id = id; reason = reason });
        restriction = most_restrictive f.restriction Outcome.deny;
      }

  -- The switch on the outcome's type.
  unfoldable pub apply_outcome : Fold → Text → HookOutcome → Fold
  unfolding block_with stop_with most_restrictive
  apply_outcome f id HookOutcome.continue = f
  apply_outcome f id (HookOutcome.block reason) = block_with f id reason
  apply_outcome f id (HookOutcome.context text) =
      let (clean, modified) = sanitize text in
      record f {
        injected_context =
            f.injected_context ++ record { hook_id = id; text = clean; sanitized = modified } ∷ [];
      }
  apply_outcome f id (HookOutcome.modify tool_input) = record f {
    modifications =
        f.modifications
        ++ record { hook_id = id; tool_input = tool_input; needs_revalidation = true } ∷ [];
  }
  apply_outcome f id (HookOutcome.allow reason) = ignore f id Elevation.allow reason
  apply_outcome f id (HookOutcome.passthrough reason) = ignore f id Elevation.passthrough reason
  apply_outcome f id (HookOutcome.deny reason) = record f {
    restriction = most_restrictive f.restriction Outcome.deny;
  }
  apply_outcome f id (HookOutcome.ask reason) = record f {
    restriction = most_restrictive f.restriction Outcome.ask;
  }
  apply_outcome f id (HookOutcome.stop reason) =
      if is_stop event
      then record f { stop_reentry_refused = true }
      else stop_with f f.stop_reason id reason
  apply_outcome f id (HookOutcome.annotate annotations) = record f {
    annotations = f.annotations ++ record { hook_id = id; annotations = annotations } ∷ [];
  }

  -- A handler that ran.
  unfoldable pub apply_result : Fold → HookRegistration → HandlerResult → Fold
  unfolding apply_outcome type_of form_of
  apply_result f r (HandlerResult.failure failure) =
      log (record f { failures = f.failures ++ record { hook_id = r.id; failure = failure } ∷ [] })
        r RecordedOutcome.failure
  apply_result f r (HandlerResult.outcome outcome remark) =
      apply_outcome (log f r (RecordedOutcome.ran (type_of outcome))) r.id outcome

  module _ (invoke : HookRegistration → HandlerResult) where
    -- The loop's body.
    unfoldable pub fold_step : Fold → HookRegistration → Fold
    unfolding apply_result form_of
    fold_step f r =
        if f.blocked
        then log f r RecordedOutcome.skipped
        else apply_result (record f { ran_handlers = f.ran_handlers + 1 }) r (invoke r)

    unfoldable pub fold_from : Fold → List HookRegistration → Fold
    unfolding fold_step
    fold_from f [] = f
    fold_from f (r ∷ rs) = fold_from (fold_step f r) rs

    abbrev last_of {ℓ} : {A : Type ℓ} → List A → Option A
    last_of [] = none
    last_of (x ∷ []) = some x
    last_of (x ∷ y ∷ xs) = last_of (y ∷ xs)

    unfoldable pub folded_result : Outcome → Fold → FoldedHookResult
    unfolding is_post_tool_event differs
    folded_result base f = record {
      event = event;
      ran_handlers = f.ran_handlers;
      blocked = f.blocked;
      block_reason = f.block_reason;
      decision = f.restriction;
      decision_changed = differs f.restriction base;
      modifications = f.modifications;
      modified_input = last_of f.modifications;
      injected_context = f.injected_context;
      stopped = f.stopped;
      stop_reason = f.stop_reason;
      result_durable = is_post_tool_event event;
      annotations = f.annotations;
      ignored_elevations = f.ignored_elevations;
      failures = f.failures;
      stop_reentry_refused = f.stop_reentry_refused;
      audit = f.audit;
    }

    -- `#runInner` behind the choice of the registrations
    unfoldable pub run_inner : Outcome → List HookRegistration → FoldedHookResult
    unfolding fold_from folded_result
    run_inner base registrations = folded_result base (fold_from (start_fold base) registrations)
