-- ===== src/Hooks/Fold/Ladder.antt =====
-- packages/hooks/src/engine.ts: the decision of the fold against the base and the opinions.
use qwen_harness.Prelude.{
  ℕ, ◌≤◌, max, Bool, true, false, List, [], ◌∷◌, Option, none, some, Text, ◌≡◌, refl, arith,
  if◌then◌else◌, Bool-cases, inl, inr,
}
use qwen_harness.Policy.Effect.{Outcome}
use qwen_harness.Hooks.Outcome.{
  HookEvent, is_post_tool_event, is_stop, HookReason, HookOutcome, HookOutcomeType, RecordedOutcome,
  HandlerResult, AttributedReason,
}
use qwen_harness.Hooks.Registration.{HookRegistration}
use qwen_harness.Hooks.Fold.Steps.{counted, fold_step-skip, fold_step-run}
use qwen_harness.Hooks.Fold.{
  rank, most_restrictive, Fold, start_fold, log, stop_with, block_with, apply_outcome, apply_result,
  fold_step, fold_from, folded_result, run_inner,
}

-- How strict an opinion is, on the ladder of the decisions.
abbrev pub opinion : HookEvent → HandlerResult → ℕ
opinion event (HandlerResult.outcome (HookOutcome.deny reason) n) = 2
opinion event (HandlerResult.outcome (HookOutcome.ask reason) n) = 1
opinion event (HandlerResult.outcome (HookOutcome.block reason) n) =
    if is_post_tool_event event then 0 else 2
opinion event _ = 0

abbrev pub strictest : HookEvent → (HookRegistration → HandlerResult) → List HookRegistration → ℕ
strictest event invoke [] = 0
strictest event invoke (r ∷ rs) = max (opinion event (invoke r)) (strictest event invoke rs)

rank_le : (d : Outcome) → rank d ≤ 2
unfolding rank
rank_le Outcome.passthrough = omega arith
rank_le Outcome.allow = omega arith
rank_le Outcome.ask = omega arith
rank_le Outcome.deny = omega arith

opinion_le : (event : HookEvent) (result : HandlerResult) → opinion event result ≤ 2
opinion_le event (HandlerResult.failure failure) = omega arith
opinion_le event (HandlerResult.outcome HookOutcome.continue n) = omega arith
opinion_le event (HandlerResult.outcome (HookOutcome.block reason) n) = ground arith
opinion_le event (HandlerResult.outcome (HookOutcome.context text) n) = omega arith
opinion_le event (HandlerResult.outcome (HookOutcome.modify input) n) = omega arith
opinion_le event (HandlerResult.outcome (HookOutcome.allow reason) n) = omega arith
opinion_le event (HandlerResult.outcome (HookOutcome.passthrough reason) n) = omega arith
opinion_le event (HandlerResult.outcome (HookOutcome.deny reason) n) = omega arith
opinion_le event (HandlerResult.outcome (HookOutcome.ask reason) n) = omega arith
opinion_le event (HandlerResult.outcome (HookOutcome.stop reason) n) = omega arith
opinion_le event (HandlerResult.outcome (HookOutcome.annotate as') n) = omega arith

rank-most_restrictive : (a b : Outcome) → rank (most_restrictive a b) ≡ max (rank a) (rank b)
unfolding most_restrictive
rank-most_restrictive a b = ground arith

restriction-stop_with :
    (f : Fold) (o : Option AttributedReason) (id : Text) (reason : HookReason)
    → ((stop_with f o id reason).restriction ≡ f.restriction)
      × ((stop_with f o id reason).blocked ≡ f.blocked)
unfolding stop_with
restriction-stop_with f none id reason = (refl, refl)
restriction-stop_with f (some first) id reason = (refl, refl)

-- What a step does to the restriction, and that a blocked fold denies.
abbrev IsRaised : Fold → ℕ → Fold → Type 0
IsRaised f n g =
    (rank g.restriction ≡ max (rank f.restriction) n) × (g.blocked ≡ true → rank g.restriction ≡ 2)

module _ (sanitize : Text → Text × Bool) (event : HookEvent) where
  block_with-IsRaised :
      (f : Fold) (id : Text) (reason : HookReason)
      → f.blocked ≡ false
      → IsRaised f
          (if is_post_tool_event event then 0 else 2)
          (block_with sanitize event f id reason)
  unfolding block_with rank
  block_with-IsRaised f id reason h = elim (Bool-cases (is_post_tool_event event)) [
    | inl t ↦
        let (kept, going) = restriction-stop_with f f.stop_reason id reason in
        rw t (rw kept (omega arith), λ e. cc)
    | inr t ↦ rw t (
      rank-most_restrictive f.restriction Outcome.deny,
      λ e. omega (arith, rank-most_restrictive f.restriction Outcome.deny, rank_le f.restriction),
    )
  ]

  same_restriction :
      (f g : Fold)
      → g.restriction ≡ f.restriction
      → g.blocked ≡ f.blocked
      → f.blocked ≡ false
      → IsRaised f 0 g
  same_restriction f g e b h = (rw e (omega arith), λ t. cc)

  apply_result-IsRaised :
      (f : Fold) (r : HookRegistration) (result : HandlerResult)
      → f.blocked ≡ false
      → IsRaised f (opinion event result) (apply_result sanitize event f r result)
  unfolding apply_result apply_outcome rank
  apply_result-IsRaised f r (HandlerResult.failure failure) h = (omega arith, λ t. cc)
  apply_result-IsRaised f r (HandlerResult.outcome HookOutcome.continue n) h =
      (omega arith, λ t. cc)
  apply_result-IsRaised f r (HandlerResult.outcome (HookOutcome.block reason) n) h =
      block_with-IsRaised _ r.id reason h
  apply_result-IsRaised f r (HandlerResult.outcome (HookOutcome.context text) n) h =
      (omega arith, λ t. cc)
  apply_result-IsRaised f r (HandlerResult.outcome (HookOutcome.modify input) n) h =
      (omega arith, λ t. cc)
  apply_result-IsRaised f r (HandlerResult.outcome (HookOutcome.allow reason) n) h =
      (omega arith, λ t. cc)
  apply_result-IsRaised f r (HandlerResult.outcome (HookOutcome.passthrough reason) n) h =
      (omega arith, λ t. cc)
  apply_result-IsRaised f r (HandlerResult.outcome (HookOutcome.deny reason) n) h =
      (rank-most_restrictive f.restriction Outcome.deny, λ t. cc)
  apply_result-IsRaised f r (HandlerResult.outcome (HookOutcome.ask reason) n) h =
      (rank-most_restrictive f.restriction Outcome.ask, λ t. cc)
  apply_result-IsRaised f r (HandlerResult.outcome (HookOutcome.stop reason) n) h =
      elim (Bool-cases (is_stop event)) [
        | inl t ↦ rw t (omega arith, λ e. cc)
        | inr t ↦
            let (kept, going) =
              restriction-stop_with (log f r (RecordedOutcome.ran HookOutcomeType.stop))
                f.stop_reason r.id reason in
            rw t (rw kept (omega arith), λ e. cc)
      ]
  apply_result-IsRaised f r (HandlerResult.outcome (HookOutcome.annotate as') n) h =
      (omega arith, λ t. cc)

  module _ (invoke : HookRegistration → HandlerResult) where
    -- A fold that is blocked denies.
    abbrev IsSettled : Fold → Type 0
    IsSettled f = f.blocked ≡ true → rank f.restriction ≡ 2

    fold_step-rank :
        (f : Fold) (r : HookRegistration)
        → IsSettled f
        → (rank (fold_step sanitize event invoke f r).restriction
            ≡ max (rank f.restriction) (opinion event (invoke r)))
          × IsSettled (fold_step sanitize event invoke f r)
    fold_step-rank f r h = elim (Bool-cases f.blocked) [
      | inl t ↦
          rw (fold_step-skip sanitize event invoke f r t)
            (omega (arith, h t, opinion_le event (invoke r)), h)
      | inr t ↦
          rw (fold_step-run sanitize event invoke f r t)
            (apply_result-IsRaised (counted f) r (invoke r) t)
    ]

    fold_from-rank :
        (f : Fold) (rs : List HookRegistration)
        → IsSettled f
        → rank (fold_from sanitize event invoke f rs).restriction
          ≡ max (rank f.restriction) (strictest event invoke rs)
    unfolding fold_from
    fold_from-rank f [] h = omega arith
    fold_from-rank f (r ∷ rs) h =
        let (e, next) = fold_step-rank f r h in
        omega (arith, e, fold_from-rank (fold_step sanitize event invoke f r) rs next)

    -- On the ladder of decisions, where allow and passthrough stand at the bottom, ask above them and
    -- deny on top, the decision of a run is the higher of the base and the strictest opinion among the
    -- results of all the matching hooks. The opinion is deny's for a deny, and for a block unless the
    -- event comes after a tool; ask's for an ask; and the bottom for any other outcome and a failure.
    pub run_inner-rank :
        (base : Outcome) (rs : List HookRegistration)
        → rank (run_inner sanitize event invoke base rs).decision
          ≡ max (rank base) (strictest event invoke rs)
    unfolding run_inner folded_result
    run_inner-rank base rs = fold_from-rank (start_fold base) rs (λ t. cc)
