-- ===== src/Policy/Engine/Hooks.antt =====
-- packages/policy/src/engine.ts: an evaluation with and without a hook, and with more managed rules.
use qwen_harness.Prelude.{◌≤◌, max, List, ◌++◌, ◌≡◌, refl, ◌∙◌, arith, Text, Option, none}
use qwen_harness.Policy.Action.{NormalizedAction, Platform}
use qwen_harness.Policy.Paths.{ProtectedMatch}
use qwen_harness.Policy.Effect.{Outcome, restrictiveness}
use qwen_harness.Policy.Managed.{ManagedRule, ManagedPolicy}
use qwen_harness.Policy.Engine.Stages.{
  PolicyContext, Verdict, profile_stage, protected_stage, rule_stage, grant_stage,
}
use qwen_harness.Policy.Engine.{evaluate, protected_matches}
use qwen_harness.Policy.Engine.Results.{outcome_rank, rank-outcome, IsCanonical}
use qwen_harness.Policy.Engine.Ceiling.{policy_rank, ceiling_rank-append}
use qwen_harness.Policy.Engine.Verdicts.{hook_rank}
use qwen_harness.Policy.Engine.Pipeline.{after_protected, after_rules, after_grants, ceiling-max}

protected_matches-swap :
    (platform : Platform) (ctx : PolicyContext) (hook : Option Outcome) (managed : ManagedPolicy)
    (action : NormalizedAction)
    → protected_matches platform action
        (record ctx { hook_outcome = hook; managed_policy = managed })
      ≡ protected_matches platform action ctx
unfolding protected_matches
protected_matches-swap platform ctx hook managed (NormalizedAction.git_read root op) = refl
protected_matches-swap platform ctx hook managed _ = refl

-- Stages 1 to 4 read neither the hook nor the managed policy.
module _ (platform : Platform) (action : NormalizedAction) (ctx : PolicyContext)
    (hook : Option Outcome) (managed : ManagedPolicy) where
  abbrev swapped : PolicyContext
  swapped = record ctx { hook_outcome = hook; managed_policy = managed }

  abbrev digest : Text
  digest = platform.action_digest action

  profile_stage-swap : profile_stage action swapped ≡ profile_stage action ctx
  unfolding profile_stage
  profile_stage-swap = refl

  protected_stage-swap :
      (m : List ProtectedMatch) (v : Verdict)
      → protected_stage swapped m v ≡ protected_stage ctx m v
  unfolding protected_stage
  protected_stage-swap m v = refl

  rule_stage-swap :
      (v : Verdict) → rule_stage action swapped digest v ≡ rule_stage action ctx digest v
  unfolding rule_stage
  rule_stage-swap v = refl

  grant_stage-swap :
      (v : Verdict) → grant_stage action swapped digest v ≡ grant_stage action ctx digest v
  unfolding grant_stage
  grant_stage-swap v = refl

  after_grants-swap : after_grants platform action swapped ≡ after_grants platform action ctx
  after_grants-swap = rw (
    protected_matches-swap platform ctx hook managed action,
    profile_stage-swap,
    protected_stage-swap,
    rule_stage-swap,
    grant_stage-swap,
    after_grants,
    after_rules,
    after_protected,
  )

module _ (platform : Platform) (action : NormalizedAction) (ctx : PolicyContext) where
  pub rank_at :
      (hook : Option Outcome) (managed : ManagedPolicy)
      → IsCanonical platform action ctx
      → outcome_rank
          (evaluate platform action
            (record ctx { hook_outcome = hook; managed_policy = managed })).outcome
        ≡ max
            (max (restrictiveness (after_grants platform action ctx).effect) (hook_rank hook))
            (policy_rank action ctx.home_dir (platform.action_digest action) managed)
  rank_at hook managed h =
      let ctx' = record ctx { hook_outcome = hook; managed_policy = managed } in
      rank-outcome platform action ctx' h
      ∙ rw (← after_grants-swap platform action ctx hook managed) (ceiling-max platform action ctx')

  -- What a hook says makes the decision on a canonical action the more restrictive of what it was
  -- without the hook and of the hook's word, where `allow` and `passthrough` restrict nothing.
  pub hook_only_tightens :
      (hook : Option Outcome)
      → IsCanonical platform action ctx
      → outcome_rank (evaluate platform action (record ctx { hook_outcome = hook })).outcome
        ≡ max
            (outcome_rank (evaluate platform action (record ctx { hook_outcome = none })).outcome)
            (hook_rank hook)
  hook_only_tightens hook h =
      omega (arith, rank_at hook ctx.managed_policy h, rank_at none ctx.managed_policy h)

  -- More managed rules never loosen the decision on a canonical action.
  more_managed_rules_tighten :
      (extra : List ManagedRule)
      → IsCanonical platform action ctx
      → let managed = record ctx.managed_policy { rules = ctx.managed_policy.rules ++ extra } in
        outcome_rank (evaluate platform action ctx).outcome
        ≤ outcome_rank (evaluate platform action (record ctx { managed_policy = managed })).outcome
  more_managed_rules_tighten extra h =
      let rules = ctx.managed_policy.rules in
      let managed = record ctx.managed_policy { rules = rules ++ extra } in
      omega (
        arith,
        rank_at ctx.hook_outcome ctx.managed_policy h,
        rank_at ctx.hook_outcome managed h,
        ceiling_rank-append action ctx.home_dir (platform.action_digest action) rules extra,
      )
