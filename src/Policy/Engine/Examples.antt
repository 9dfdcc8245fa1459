-- ===== src/Policy/Engine/Examples.antt =====
-- Runs of the engine with rules, hooks and a ceiling, and its theorems at concrete inputs.
use qwen_harness.Prelude.{max, ◌≡◌, refl, str, keep, text_eq, starts_with}
use mathlib.Core.List.{Memᴰ}
use qwen_harness.Policy.Action.{is_side_effect}
use qwen_harness.Policy.Paths.Glob.{match_text_glob}
use qwen_harness.Policy.Matcher.{matches_action, is_empty_matcher, argv0}
use qwen_harness.Policy.Effect.{Outcome, restrictiveness}
use qwen_harness.Policy.Rules.Merge.{is_not_project_allow}
use qwen_harness.Policy.Engine.{evaluate, before_managed}
use qwen_harness.Policy.Engine.Results.{outcome_rank}
use qwen_harness.Policy.Engine.Ceiling.{managed_deny_dominates, evaluate-max, policy_rank}
use qwen_harness.Policy.Engine.Pipeline.{plan_denies, deny_rule_dominates}
use qwen_harness.Policy.Engine.Repository.{project_allow_inert}
use qwen_harness.Policy.Engine.Samples.{
  canonical_remove_all, plain_platform, remove_all, deny_rm, with_deny_rm, plan_context,
  project_rule, denied_context, allowed_context,
}

managed_deny_dominates_example :
    (evaluate plain_platform remove_all with_deny_rm).outcome ≡ Outcome.deny
unfolding matches_action is_empty_matcher argv0 match_text_glob str starts_with text_eq
managed_deny_dominates_example =
    managed_deny_dominates plain_platform remove_all with_deny_rm deny_rm (Memᴰ.head refl) refl refl

plan_denies_example : (evaluate plain_platform remove_all plan_context).outcome ≡ Outcome.deny
unfolding is_side_effect
plan_denies_example = plan_denies plain_platform remove_all plan_context refl refl refl

deny_rule_dominates_example :
    (evaluate plain_platform remove_all denied_context).outcome ≡ Outcome.deny
unfolding matches_action is_empty_matcher argv0 match_text_glob str starts_with text_eq
deny_rule_dominates_example =
    deny_rule_dominates plain_platform remove_all denied_context (project_rule Outcome.deny)
      (Memᴰ.head refl) refl refl

project_allow_inert_example :
    let ctx' = record allowed_context { rules = keep is_not_project_allow allowed_context.rules } in
    ((evaluate plain_platform remove_all ctx').outcome
      ≡ (evaluate plain_platform remove_all allowed_context).outcome)
    × ((evaluate plain_platform remove_all ctx').reason
        ≡ (evaluate plain_platform remove_all allowed_context).reason)
    × ((evaluate plain_platform remove_all ctx').source
        ≡ (evaluate plain_platform remove_all allowed_context).source)
project_allow_inert_example = project_allow_inert plain_platform remove_all allowed_context

evaluate-max_example :
    outcome_rank (evaluate plain_platform remove_all with_deny_rm).outcome
    ≡ max
        (restrictiveness ((before_managed plain_platform remove_all with_deny_rm).0.effect))
        (policy_rank remove_all (str "/home/u") (str "d0") with_deny_rm.managed_policy)
evaluate-max_example = evaluate-max plain_platform remove_all with_deny_rm canonical_remove_all
