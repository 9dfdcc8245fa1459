-- ===== src/Policy/Engine/Stages/Loosening.antt =====
-- packages/policy/src/engine.ts: the rule stage and the grant stage.
use qwen_harness.Prelude.{
  false, ◌&&◌, ◌||◌, List, [], ◌∷◌, ◌++◌, map, Option, none, some, Text, str, is_empty, is_none,
  if◌then◌else◌, ltb,
}
use qwen_harness.Policy.Action.{NormalizedAction}
use qwen_harness.Policy.Effect.{
  Outcome, Effect, restrictiveness, outcome_of, is_allow, is_deny, is_ask,
}
use qwen_harness.Policy.Rules.{PolicyRule, RuleScope, RuleMatch, merge_rules}
use qwen_harness.Policy.Grants.{Grant, GrantScope, GrantRejection, GrantLookup, find_grant}
use qwen_harness.Policy.Engine.Stages.Types.{
  DecisionStage, DecisionStep, StepEffect, opinion, no_opinion, PolicyContext, Verdict,
}

pub rule_step : Text → StepEffect → Text → DecisionStep
rule_step id effect note = record {
  stage = DecisionStage.rule;
  id = id;
  effect = effect;
  note = note;
}

pub rule_scope_name : RuleScope → Text
rule_scope_name RuleScope.project = str "project"
rule_scope_name RuleScope.user = str "user"
rule_scope_name RuleScope.local = str "local"
rule_scope_name RuleScope.session = str "session"

-- A step for each match that was downgraded.
pub downgrade_steps : List RuleMatch → List DecisionStep
downgrade_steps [] = []
downgrade_steps (m ∷ matches) =
    if is_none m.downgraded_from
    then downgrade_steps matches
    else rule_step m.rule.id no_opinion (
        str "scope '"
        ++ (rule_scope_name m.rule.scope
            ++ str "' may not allow; repository content cannot add authority"))
      ∷ downgrade_steps matches

-- The ladder at a merge that has an effect and a winning rule.
unfoldable pub apply_rule : Effect → PolicyRule → Verdict → Verdict × List DecisionStep
apply_rule effect rule v =
    if ltb (restrictiveness v.effect) (restrictiveness effect)
    then (
      record {
        effect = effect;
        sealed = is_deny effect;
        exact_grant_only = v.exact_grant_only;
        source = record { stage = DecisionStage.rule; id = rule.id };
        reason = rule.reason;
      },
      rule_step rule.id (opinion (outcome_of effect)) rule.reason ∷ [],
    )
    else if v.sealed || v.exact_grant_only
    then (
      v,
      rule_step rule.id no_opinion (
            if v.exact_grant_only
            then str "protected path: only an exact approval can loosen this, not a rule"
            else str "verdict is sealed; a rule cannot loosen it")
          ∷ [],
    )
    else if is_allow effect && is_ask v.effect
    then (
      record {
        effect = Effect.allow;
        sealed = false;
        exact_grant_only = false;
        source = record { stage = DecisionStage.rule; id = rule.id };
        reason = rule.reason;
      },
      rule_step rule.id (opinion Outcome.allow) rule.reason ∷ [],
    )
    else (
      v,
      rule_step rule.id no_opinion (str "the profile verdict is already at least this restrictive")
          ∷ [],
    )

unfoldable pub apply_winner : Option (Effect × RuleMatch) → Verdict → Verdict × List DecisionStep
unfolding apply_rule
apply_winner none v = (v, [])
apply_winner (some (effect, winner)) v = apply_rule effect winner.rule v

unfoldable pub rule_stage :
    NormalizedAction → PolicyContext → Text → Verdict → Verdict × List DecisionStep
unfolding apply_winner
rule_stage action ctx digest v =
    let merged = merge_rules action ctx.home_dir digest ctx.rules in
    let (w, steps) = apply_winner merged.winner v in (w, downgrade_steps merged.matches ++ steps)

pub grant_scope_name : GrantScope → Text
grant_scope_name GrantScope.once = str "once"
grant_scope_name GrantScope.session = str "session"
grant_scope_name GrantScope.rule = str "rule"

pub rejection_name : GrantRejection → Text
rejection_name GrantRejection.expired = str "expired"
rejection_name GrantRejection.revoked = str "revoked"
rejection_name GrantRejection.already_used = str "already-used"
rejection_name GrantRejection.no_match = str "no-match"
rejection_name GrantRejection.scope_not_allowed_here = str "scope-not-allowed-here"

pub grant_step : Text → StepEffect → Text → DecisionStep
grant_step id effect note = record {
  stage = DecisionStage.grant;
  id = id;
  effect = effect;
  note = note;
}

pub rejection_step : Grant × GrantRejection → DecisionStep
rejection_step (grant, why) =
    grant_step grant.id no_opinion (str "matched but unusable: " ++ rejection_name why)

-- What a lookup makes of an `ask`.
unfoldable pub apply_lookup : GrantLookup → Verdict → Verdict × List DecisionStep
apply_lookup lookup v = elim lookup.grant [
  | none ↦ (v, map rejection_step lookup.rejected)
  | some grant ↦ (
    record {
      effect = Effect.allow;
      sealed = false;
      exact_grant_only = false;
      source = record { stage = DecisionStage.grant; id = grant.id };
      reason = str "granted (" ++ (grant_scope_name grant.scope ++ (str "): " ++ grant.reason));
    },
    map rejection_step lookup.rejected
        ++ grant_step grant.id (opinion Outcome.allow) (
            str "scope "
            ++ (grant_scope_name grant.scope ++ (str ", granted by " ++ grant.granted_by)))
          ∷ [],
  )
]

unfoldable pub grant_stage :
    NormalizedAction → PolicyContext → Text → Verdict → Verdict × List DecisionStep
unfolding apply_lookup
grant_stage action ctx digest v =
    if is_ask v.effect
    then apply_lookup (find_grant action digest ctx.home_dir v.exact_grant_only ctx.now ctx.grants)
        v
    else (
      v,
      if is_empty ctx.grants
          then []
          else grant_step (str "grants") no_opinion (
              if is_deny v.effect
              then str "a grant cannot authorize a denied action"
              else str "no approval needed")
            ∷ [],
    )
