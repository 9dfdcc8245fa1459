-- ===== src/Policy/Engine/Pipeline.antt =====
-- packages/policy/src/engine.ts: the stages together.
use qwen_harness.Prelude.{
  max, true, false, List, [], ◌∷◌, ◌≡◌, ◌⊎◌, inl, inr, arith, Text, none, some, is_empty, is_none,
  Some,
}
use mathlib.Core.List.{Memᴰ}
use qwen_harness.Protocol.{PermissionProfile, is_user}
use qwen_harness.Policy.Action.{NormalizedAction, Platform, is_side_effect}
use qwen_harness.Policy.Matcher.{matches_action}
use qwen_harness.Policy.Paths.{ProtectedMatch}
use qwen_harness.Policy.Effect.{Outcome, Effect, restrictiveness}
use qwen_harness.Policy.Rules.{PolicyRule}
use qwen_harness.Policy.Rules.Merge.{merge_rules_max, rules_rank_of_mem, rules_rank-le}
use qwen_harness.Policy.Grants.{find_grant, is_rule, has_digest, is_grant_live}
use qwen_harness.Policy.Grants.Lookup.{find_grant_iff, exact_of_usable}
use qwen_harness.Policy.Engine.Stages.{
  PolicyContext, Verdict, profile_stage, protected_stage, is_yolo, rule_stage, grant_stage,
}
use qwen_harness.Policy.Engine.{evaluate, before_managed, protected_matches}
use qwen_harness.Policy.Engine.Results.{outcome_rank, outcome_deny, permitted_inversion, ceiling}
use qwen_harness.Policy.Engine.Ceiling.{managed_stage-max, policy_rank}
use qwen_harness.Policy.Engine.Verdicts.{
  IsGuarded, rule_stage-IsGuarded, rule_stage_deny, rule_stage_denied, grant_stage_deny,
  grant_stage_allow, hook_rank, hook_stage-max,
}

profile_stage_plan :
    (action : NormalizedAction) (ctx : PolicyContext)
    → ctx.profile ≡ PermissionProfile.plan
    → is_user ctx.actor.kind ≡ false
    → is_side_effect action ≡ true
    → (profile_stage action ctx).0.effect ≡ Effect.deny
unfolding profile_stage
profile_stage_plan action ctx p u s = ground arith

protected_stage_deny :
    (ctx : PolicyContext) (matches : List ProtectedMatch) (v : Verdict)
    → ctx.profile ≡ PermissionProfile.plan
    → v.effect ≡ Effect.deny
    → (protected_stage ctx matches v).0.effect ≡ Effect.deny
unfolding protected_stage
protected_stage_deny ctx [] v p h = h
protected_stage_deny ctx (m ∷ ms) v p h = ground arith

-- Outside `yolo` a protected path leaves a guarded verdict.
protected_stage-IsGuarded :
    (ctx : PolicyContext) (matches : List ProtectedMatch) (v : Verdict)
    → is_yolo ctx.profile ≡ false
    → is_empty matches ≡ false
    → IsGuarded (protected_stage ctx matches v).0
unfolding protected_stage
protected_stage-IsGuarded ctx [] v p q = cc
protected_stage-IsGuarded ctx (m ∷ ms) v p q = ground arith

module _ (platform : Platform) (action : NormalizedAction) (ctx : PolicyContext) where
  abbrev pub digest : Text
  digest = platform.action_digest action

  abbrev pub after_protected : Verdict
  after_protected =
      (protected_stage ctx (protected_matches platform action ctx) (profile_stage action ctx).0).0

  abbrev pub after_rules : Verdict
  after_rules = (rule_stage action ctx digest after_protected).0

  abbrev pub after_grants : Verdict
  after_grants = (grant_stage action ctx digest after_rules).0

  before_managed-max :
      restrictiveness ((before_managed platform action ctx).0.effect)
      ≡ max (restrictiveness after_grants.effect) (hook_rank ctx.hook_outcome)
  unfolding before_managed
  before_managed-max = hook_stage-max ctx after_grants

  pub ceiling-max :
      restrictiveness ((ceiling platform action ctx).verdict.effect)
      ≡ max
          (max (restrictiveness after_grants.effect) (hook_rank ctx.hook_outcome))
          (policy_rank action ctx.home_dir digest ctx.managed_policy)
  ceiling-max = omega (
    arith,
    before_managed-max,
    managed_stage-max action ctx digest (before_managed platform action ctx).0,
  )

  denied_of_rules :
      after_rules.effect ≡ Effect.deny → (evaluate platform action ctx).outcome ≡ Outcome.deny
  denied_of_rules h =
      outcome_deny platform action ctx
        (ground (arith, ceiling-max, grant_stage_deny action ctx digest after_rules h))

  -- In `plan` an action with a side effect is denied unless the user acts: whatever the rules, the
  -- grants, the hook and the managed policy say.
  pub plan_denies :
      ctx.profile ≡ PermissionProfile.plan
      → is_user ctx.actor.kind ≡ false
      → is_side_effect action ≡ true
      → (evaluate platform action ctx).outcome ≡ Outcome.deny
  plan_denies p u s = denied_of_rules (
      rule_stage_deny action ctx digest after_protected (
        protected_stage_deny ctx (protected_matches platform action ctx) _ p
          (profile_stage_plan action ctx p u s)))

  -- A rule that denies and matches the action denies it, in every profile and for every actor,
  -- whatever its scope and whatever other rules allow.
  pub deny_rule_dominates :
      (rule : PolicyRule)
      → Memᴰ rule ctx.rules
      → rule.effect ≡ Outcome.deny
      → matches_action rule.match action ctx.home_dir digest ≡ true
      → (evaluate platform action ctx).outcome ≡ Outcome.deny
  deny_rule_dominates rule m e h = denied_of_rules (
      rule_stage_denied action ctx digest after_protected (
        ground (
          arith,
          merge_rules_max action ctx.home_dir digest ctx.rules,
          rules_rank_of_mem action ctx.home_dir digest rule ctx.rules m h,
          rules_rank-le action ctx.home_dir digest ctx.rules,
        )))

  -- A hook that denies is obeyed.
  pub hook_deny_dominates :
      ctx.hook_outcome ≡ some Outcome.deny → (evaluate platform action ctx).outcome ≡ Outcome.deny
  hook_deny_dominates h = outcome_deny platform action ctx (ground (arith, ceiling-max))

  after_grants_allow :
      outcome_rank (evaluate platform action ctx).outcome ≡ 0 → after_grants.effect ≡ Effect.allow
  after_grants_allow h = ground (arith, ceiling-max, (permitted_inversion platform action ctx h).1)

  after_rules-IsGuarded :
      is_yolo ctx.profile ≡ false
      → is_empty (protected_matches platform action ctx) ≡ false
      → IsGuarded after_rules
  after_rules-IsGuarded p q =
      rule_stage-IsGuarded action ctx digest after_protected
        (protected_stage-IsGuarded ctx (protected_matches platform action ctx) _ p q)

  exact_grant_found :
      IsGuarded after_rules
      → (after_rules.effect ≡ Effect.allow)
        ⊎ ((after_rules.effect ≡ Effect.ask)
            × (is_none
                  (find_grant action digest ctx.home_dir after_rules.exact_grant_only ctx.now
                    ctx.grants).grant
                ≡ false))
      → Some
          (λ g.
            (is_rule g.scope ≡ false)
            × (has_digest g.action_digest digest ≡ true)
            × (is_grant_live g ctx.now ≡ none))
          ctx.grants
  exact_grant_found (inl d) (inl a) = absurd (ground arith)
  exact_grant_found (inl d) (inr (a, found)) = absurd (ground arith)
  exact_grant_found (inr (k, e)) (inl a) = absurd (ground arith)
  exact_grant_found (inr (k, e)) (inr (a, found)) =
      let (g, m, u) =
        (find_grant_iff action digest ctx.home_dir after_rules.exact_grant_only ctx.now
            ctx.grants).0
          found in
      (g, m, exact_of_usable action digest ctx.home_dir after_rules.exact_grant_only ctx.now g e u)

  -- Outside `yolo`, an action with a protected match is permitted only by a live grant that is bound
  -- to its digest: neither by a rule, nor by a rule grant, nor by the profile.
  pub protected_needs_exact_grant :
      is_yolo ctx.profile ≡ false
      → is_empty (protected_matches platform action ctx) ≡ false
      → outcome_rank (evaluate platform action ctx).outcome ≡ 0
      → Some
          (λ g.
            (is_rule g.scope ≡ false)
            × (has_digest g.action_digest digest ≡ true)
            × (is_grant_live g ctx.now ≡ none))
          ctx.grants
  protected_needs_exact_grant p q h =
      exact_grant_found (after_rules-IsGuarded p q)
        (grant_stage_allow action ctx digest after_rules (after_grants_allow h))
