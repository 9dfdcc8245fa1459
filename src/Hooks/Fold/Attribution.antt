-- ===== src/Hooks/Fold/Attribution.antt =====
-- packages/hooks/src/engine.ts: the audit of the fold, what it skips, and what a block is.
use qwen_harness.Prelude.{
  Bool, true, false, not, ◌||◌, List, [], ◌∷◌, ◌++◌, Option, none, some, Text, ◌≡◌, refl, ap, ◌∙◌,
  sym, arith, Bool-cases, inl, inr, any,
}
use mathlib.Core.List.{append_assoc, append-nil}
use qwen_harness.Policy.Effect.{Outcome}
use qwen_harness.Hooks.Outcome.{
  HookEvent, is_post_tool_event, is_stop, HookReason, HookOutcome, RecordedOutcome,
  HookInvocationRecord, HandlerResult, AttributedReason, type_of,
}
use qwen_harness.Hooks.Registration.{HookRegistration, form_of}
use qwen_harness.Hooks.Fold.Steps.{counted, fold_step-skip, fold_step-run}
use qwen_harness.Hooks.Fold.{
  Fold, start_fold, log, stop_with, block_with, apply_outcome, apply_result, fold_from,
  folded_result, run_inner,
}

-- A block, on an event that comes before what it is about.
abbrev pub is_block : HookEvent → HandlerResult → Bool
is_block event (HandlerResult.outcome (HookOutcome.block reason) n) = not (is_post_tool_event event)
is_block event _ = false

-- What the audit holds of a handler that ran.
abbrev pub recorded : HandlerResult → RecordedOutcome
recorded (HandlerResult.failure failure) = RecordedOutcome.failure
recorded (HandlerResult.outcome o n) = RecordedOutcome.ran (type_of o)

abbrev pub entry : HookRegistration → RecordedOutcome → HookInvocationRecord
entry r o = record { hook_id = r.id; form = form_of r.handler; outcome = o }

-- The audit that the results of the hooks call for, behind a block or not.
abbrev pub audit_of :
    HookEvent
    → (HookRegistration → HandlerResult)
    → Bool
    → List HookRegistration
    → List HookInvocationRecord
audit_of event invoke blocked [] = []
audit_of event invoke true (r ∷ rs) =
    entry r RecordedOutcome.skipped ∷ audit_of event invoke true rs
audit_of event invoke false (r ∷ rs) =
    entry r (recorded (invoke r)) ∷ audit_of event invoke (is_block event (invoke r)) rs

-- The audit and the block of a fold after a record of a result.
abbrev IsLogged : Fold → HookInvocationRecord → Bool → Fold → Type 0
IsLogged f e blocked g = (g.audit ≡ f.audit ++ e ∷ []) × (g.blocked ≡ blocked)

stop_with-audit :
    (f : Fold) (o : Option AttributedReason) (id : Text) (reason : HookReason)
    → ((stop_with f o id reason).audit ≡ f.audit) × ((stop_with f o id reason).blocked ≡ f.blocked)
unfolding stop_with
stop_with-audit f none id reason = (refl, refl)
stop_with-audit f (some first) id reason = (refl, refl)

module _ (sanitize : Text → Text × Bool) (event : HookEvent) where
  apply_outcome-audit :
      (f : Fold) (id : Text) (o : HookOutcome) (n : Option Text)
      → f.blocked ≡ false
      → ((apply_outcome sanitize event f id o).audit ≡ f.audit)
        × ((apply_outcome sanitize event f id o).blocked
            ≡ is_block event (HandlerResult.outcome o n))
  unfolding apply_outcome block_with
  apply_outcome-audit f id HookOutcome.continue n h = (refl, h)
  apply_outcome-audit f id (HookOutcome.block reason) n h =
      elim (Bool-cases (is_post_tool_event event)) [
        | inl t ↦
            let (kept, going) = stop_with-audit f f.stop_reason id reason in rw t (kept, going ∙ h)
        | inr t ↦ rw t (refl, refl)
      ]
  apply_outcome-audit f id (HookOutcome.context text) n h = (refl, h)
  apply_outcome-audit f id (HookOutcome.modify input) n h = (refl, h)
  apply_outcome-audit f id (HookOutcome.allow reason) n h = (refl, h)
  apply_outcome-audit f id (HookOutcome.passthrough reason) n h = (refl, h)
  apply_outcome-audit f id (HookOutcome.deny reason) n h = (refl, h)
  apply_outcome-audit f id (HookOutcome.ask reason) n h = (refl, h)
  apply_outcome-audit f id (HookOutcome.stop reason) n h = elim (Bool-cases (is_stop event)) [
    | inl t ↦ rw t (refl, h)
    | inr t ↦
        let (kept, going) = stop_with-audit f f.stop_reason id reason in rw t (kept, going ∙ h)
  ]
  apply_outcome-audit f id (HookOutcome.annotate as') n h = (refl, h)

  apply_result-audit :
      (f : Fold) (r : HookRegistration) (result : HandlerResult)
      → f.blocked ≡ false
      → IsLogged f
          (entry r (recorded result))
          (is_block event result)
          (apply_result sanitize event f r result)
  unfolding apply_result
  apply_result-audit f r (HandlerResult.failure failure) h = (refl, h)
  apply_result-audit f r (HandlerResult.outcome o n) h = apply_outcome-audit _ r.id o n h

  module _ (invoke : HookRegistration → HandlerResult) where
    fold_from-audit :
        (f : Fold) (blocked : Bool) (rs : List HookRegistration)
        → f.blocked ≡ blocked
        → (fold_from sanitize event invoke f rs).audit ≡ f.audit ++ audit_of event invoke blocked rs
    unfolding fold_from
    fold_from-audit f blocked [] h = sym (append-nil f.audit)
    fold_from-audit f true (r ∷ rs) h =
        ap (λ (g : Fold). (fold_from sanitize event invoke g rs).audit)
          (fold_step-skip sanitize event invoke f r h)
        ∙ (fold_from-audit (log f r RecordedOutcome.skipped) true rs h
            ∙ append_assoc f.audit (entry r RecordedOutcome.skipped ∷ []) _)
    fold_from-audit f false (r ∷ rs) h =
        let g = counted f in
        let (logged, next) = apply_result-audit g r (invoke r) h in
        ap (λ (g : Fold). (fold_from sanitize event invoke g rs).audit)
          (fold_step-run sanitize event invoke f r h)
        ∙ (fold_from-audit (apply_result sanitize event g r (invoke r)) (is_block event (invoke r))
              rs next
            ∙ ap (λ l. l ++ audit_of event invoke (is_block event (invoke r)) rs) logged
            ∙ append_assoc f.audit (entry r (recorded (invoke r)) ∷ []) _)

    -- The audit of a run has one record for each matching hook, in their order, under its id and the
    -- form of its handler. Up to the first hook that blocks, itself included, it records what the
    -- handler answered; every hook behind it is recorded as skipped. On an event that comes after a
    -- tool no hook blocks.
    pub run_inner-audit :
        (base : Outcome) (rs : List HookRegistration)
        → (run_inner sanitize event invoke base rs).audit ≡ audit_of event invoke false rs
    unfolding run_inner folded_result
    run_inner-audit base rs = fold_from-audit (start_fold base) false rs refl

    fold_from-blocked :
        (f : Fold) (rs : List HookRegistration)
        → (fold_from sanitize event invoke f rs).blocked
          ≡ f.blocked || any (λ r. is_block event (invoke r)) rs
    unfolding fold_from
    fold_from-blocked f [] = ground arith
    fold_from-blocked f (r ∷ rs) = elim (Bool-cases f.blocked) [
      | inl t ↦
          ap (λ (g : Fold). (fold_from sanitize event invoke g rs).blocked)
            (fold_step-skip sanitize event invoke f r t)
          ∙ (fold_from-blocked (log f r RecordedOutcome.skipped) rs ∙ ground (arith, t))
      | inr t ↦
          let next = (apply_result-audit (counted f) r (invoke r) t).1 in
          ap (λ (g : Fold). (fold_from sanitize event invoke g rs).blocked)
            (fold_step-run sanitize event invoke f r t)
          ∙ (fold_from-blocked (apply_result sanitize event (counted f) r (invoke r)) rs
              ∙ ground (arith, next, t))
    ]

    -- A run is blocked exactly when one of the matching hooks blocks, on an event that does not come
    -- after a tool.
    pub run_inner-blocked :
        (base : Outcome) (rs : List HookRegistration)
        → (run_inner sanitize event invoke base rs).blocked
          ≡ any (λ r. is_block event (invoke r)) rs
    unfolding run_inner folded_result
    run_inner-blocked base rs = fold_from-blocked (start_fold base) rs
