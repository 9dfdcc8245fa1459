-- ===== src/Hooks/Fold/Steps.antt =====
-- packages/hooks/src/engine.ts: the two branches of the loop's body.
use qwen_harness.Prelude.{◌+◌, Bool, true, false, Text, ◌≡◌, ap, if◌then◌else◌}
use qwen_harness.Hooks.Outcome.{HookEvent, HandlerResult, RecordedOutcome}
use qwen_harness.Hooks.Registration.{HookRegistration}
use qwen_harness.Hooks.Fold.{Fold, log, apply_result, fold_step}

-- A fold with one more handler run.
abbrev pub counted : Fold → Fold
counted f = record f { ran_handlers = f.ran_handlers + 1 }

module _ (sanitize : Text → Text × Bool) (event : HookEvent)
    (invoke : HookRegistration → HandlerResult) (f : Fold) (r : HookRegistration) where
  pub fold_step-skip :
      f.blocked ≡ true → fold_step sanitize event invoke f r ≡ log f r RecordedOutcome.skipped
  unfolding fold_step
  fold_step-skip h =
      ap
        (λ (b : Bool).
          if b
          then log f r RecordedOutcome.skipped
          else apply_result sanitize event (counted f) r (invoke r))
        h

  pub fold_step-run :
      f.blocked ≡ false
      → fold_step sanitize event invoke f r ≡ apply_result sanitize event (counted f) r (invoke r)
  unfolding fold_step
  fold_step-run h =
      ap
        (λ (b : Bool).
          if b
          then log f r RecordedOutcome.skipped
          else apply_result sanitize event (counted f) r (invoke r))
        h
