-- ===== src/Policy/Engine/Repository.antt =====
-- packages/policy/src/engine.ts and rules.ts: an evaluation with and without the project's allow rules.
use qwen_harness.Prelude.{
  Bool, true, List, ◌≡◌, refl, ap, Text, str, Bool-cases, inl, inr, is_empty, keep, if◌then◌else◌,
}
use qwen_harness.Policy.Action.{NormalizedAction, Platform}
use qwen_harness.Policy.Action.Canonical.{check_canonical_action}
use qwen_harness.Policy.Paths.{ProtectedMatch}
use qwen_harness.Policy.Effect.{Outcome, outcome_of}
use qwen_harness.Policy.Rules.{PolicyRule, merge_rules}
use qwen_harness.Policy.Rules.Merge.{is_not_project_allow, winner-keep}
use qwen_harness.Policy.Engine.Stages.{
  PolicyContext, Verdict, DecisionSource, DecisionStage, ManagedResult, profile_stage,
  protected_stage, rule_stage, grant_stage, hook_stage, managed_stage,
}
use qwen_harness.Policy.Engine.{evaluate, before_managed, protected_matches, passes_through}
use qwen_harness.Policy.Engine.Results.{ceiling}

-- What is decided, without the trace.
abbrev Decided : Type 0
Decided = Outcome × Text × DecisionSource

abbrev decided : Platform → NormalizedAction → PolicyContext → Decided
decided platform action ctx = (
  (evaluate platform action ctx).outcome,
  (evaluate platform action ctx).reason,
  (evaluate platform action ctx).source,
)

-- What is decided of a canonical action, from the result of the ceiling and whether it passes through.
abbrev decided_by : PolicyContext → Bool → ManagedResult → Decided
decided_by ctx passes m =
    if passes
    then (
      Outcome.passthrough,
      str "direct user action",
      record { stage = DecisionStage.user_passthrough; id = ctx.actor.id },
    )
    else (outcome_of m.verdict.effect, m.verdict.reason, m.verdict.source)

decided_lem :
    (platform : Platform) (action : NormalizedAction) (ctx : PolicyContext)
    → is_empty (check_canonical_action platform action) ≡ true
    → decided platform action ctx
      ≡ decided_by ctx
          (passes_through platform action ctx (ceiling platform action ctx))
          (ceiling platform action ctx)
unfolding evaluate
decided_lem platform action ctx h =
    elim (Bool-cases (passes_through platform action ctx (ceiling platform action ctx))) [
      | inl e ↦ rw (h, e)
      | inr e ↦ rw (h, e)
    ]

protected_matches-rules :
    (platform : Platform) (ctx : PolicyContext) (rules : List PolicyRule)
    (action : NormalizedAction)
    → protected_matches platform action (record ctx { rules = rules })
      ≡ protected_matches platform action ctx
unfolding protected_matches
protected_matches-rules platform ctx rules (NormalizedAction.git_read root op) = refl
protected_matches-rules platform ctx rules _ = refl

module _ (platform : Platform) (action : NormalizedAction) (ctx : PolicyContext) where
  module _ (rules : List PolicyRule) where
    abbrev with_rules : PolicyContext
    with_rules = record ctx { rules = rules }

    abbrev digest : Text
    digest = platform.action_digest action

    same_protected :
        protected_matches platform action with_rules ≡ protected_matches platform action ctx
    same_protected = protected_matches-rules platform ctx rules action

    same_profile : profile_stage action with_rules ≡ profile_stage action ctx
    unfolding profile_stage
    same_profile = refl

    same_protected_stage :
        (m : List ProtectedMatch) (v : Verdict)
        → protected_stage with_rules m v ≡ protected_stage ctx m v
    unfolding protected_stage
    same_protected_stage m v = refl

    same_grant_stage :
        (v : Verdict) → grant_stage action with_rules digest v ≡ grant_stage action ctx digest v
    unfolding grant_stage
    same_grant_stage v = refl

    same_hook_stage : (v : Verdict) → hook_stage with_rules v ≡ hook_stage ctx v
    unfolding hook_stage
    same_hook_stage v = refl

    same_managed_stage :
        (v : Verdict) → managed_stage action with_rules digest v ≡ managed_stage action ctx digest v
    unfolding managed_stage
    same_managed_stage v = refl

    same_passes :
        (m : ManagedResult)
        → passes_through platform action with_rules m ≡ passes_through platform action ctx m
    unfolding passes_through
    same_passes m = refl

    abbrev SameWinner : Type 0
    SameWinner =
        (merge_rules action ctx.home_dir digest rules).winner
        ≡ (merge_rules action ctx.home_dir digest ctx.rules).winner

    same_rule_stage :
        SameWinner
        → (v : Verdict)
        → (rule_stage action with_rules digest v).0 ≡ (rule_stage action ctx digest v).0
    unfolding rule_stage
    same_rule_stage e v = rw e

    same_before_managed :
        SameWinner
        → (before_managed platform action with_rules).0 ≡ (before_managed platform action ctx).0
    unfolding before_managed
    same_before_managed e =
        rw (same_protected, same_profile, same_protected_stage, same_hook_stage, same_grant_stage)
          (ap (λ v. (hook_stage ctx (grant_stage action ctx digest v).0).0) (same_rule_stage e _))

    same_ceiling : SameWinner → ceiling platform action with_rules ≡ ceiling platform action ctx
    same_ceiling e = rw (same_before_managed e) (same_managed_stage _)

    same_decided : SameWinner → decided platform action with_rules ≡ decided platform action ctx
    same_decided e = elim (Bool-cases (is_empty (check_canonical_action platform action))) [
      | inl h ↦
          rw (decided_lem platform action with_rules h, decided_lem platform action ctx h)
            (rw (same_ceiling e) (rw same_passes))
      | inr h ↦ unfold evaluate in rw h
    ]

  -- A rule that allows from the repository, the scope `project`, changes neither the outcome nor its
  -- reason and source: without such rules the decision is the same.
  pub project_allow_inert :
      let ctx' = record ctx { rules = keep is_not_project_allow ctx.rules } in
      ((evaluate platform action ctx').outcome ≡ (evaluate platform action ctx).outcome)
      × ((evaluate platform action ctx').reason ≡ (evaluate platform action ctx).reason)
      × ((evaluate platform action ctx').source ≡ (evaluate platform action ctx).source)
  project_allow_inert =
      let e =
        same_decided (keep is_not_project_allow ctx.rules)
          (winner-keep action ctx.home_dir (platform.action_digest action) ctx.rules) in
      (ap (λ (d : Decided). d.0) e, ap (λ (d : Decided). d.1) e, ap (λ (d : Decided). d.2) e)
