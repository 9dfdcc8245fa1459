-- ===== src/Policy/Engine/Stages/Ceiling.antt =====
-- packages/policy/src/engine.ts: the hook stage and the managed ceiling.
use qwen_harness.Prelude.{
  Bool, true, false, not, ◌&&◌, List, [], ◌∷◌, ◌++◌, Option, none, some, Text, str, if◌then◌else◌,
  ltb,
}
use qwen_harness.Policy.Action.{NormalizedAction}
use qwen_harness.Policy.Matcher.{matches_action}
use qwen_harness.Policy.Effect.{Outcome, Effect, restrictiveness, outcome_of, is_allow, is_deny}
use qwen_harness.Policy.Managed.{ManagedEffect, ManagedRule, ManagedPolicy}
use qwen_harness.Policy.Engine.Stages.Types.{
  DecisionStage, DecisionStep, StepEffect, opinion, no_opinion, PolicyContext, Verdict,
}

pub hook_step : StepEffect → Text → DecisionStep
hook_step effect note = record {
  stage = DecisionStage.hook;
  id = str "hook";
  effect = effect;
  note = note;
}

pub effect_name : Effect → Text
effect_name Effect.allow = str "allow"
effect_name Effect.ask = str "ask"
effect_name Effect.deny = str "deny"

-- A hook that says `ask` or `deny`.
unfoldable pub restrict_by_hook : Effect → Verdict → Verdict × List DecisionStep
restrict_by_hook hook v =
    if ltb (restrictiveness v.effect) (restrictiveness hook)
    then (
      record {
        effect = hook;
        sealed = is_deny hook;
        exact_grant_only = v.exact_grant_only;
        source = record { stage = DecisionStage.hook; id = str "hook" };
        reason = str "a hook restricted this action to '" ++ (effect_name hook ++ str "'");
      },
      hook_step (opinion (outcome_of hook)) (str "hook restricted the action") ∷ [],
    )
    else (v, hook_step no_opinion (str "policy is already at least this restrictive") ∷ [])

unfoldable pub apply_hook : Option Outcome → Verdict → Verdict × List DecisionStep
unfolding restrict_by_hook
apply_hook none v = (v, [])
apply_hook (some Outcome.passthrough) v = (v, [])
apply_hook (some Outcome.allow) v =
    (v, hook_step no_opinion (str "a hook allow never elevates permission; policy decides") ∷ [])
apply_hook (some Outcome.ask) v = restrict_by_hook Effect.ask v
apply_hook (some Outcome.deny) v = restrict_by_hook Effect.deny v

unfoldable pub hook_stage : PolicyContext → Verdict → Verdict × List DecisionStep
unfolding apply_hook
hook_stage ctx v = apply_hook ctx.hook_outcome v

pub record ManagedResult : Type 0 where
  pub verdict : Verdict
  pub forced_ask : Bool
  pub steps : List DecisionStep

pub managed_step : Text → StepEffect → Text → DecisionStep
managed_step id effect note = record {
  stage = DecisionStage.managed;
  id = id;
  effect = effect;
  note = note;
}

abbrev pub managed_verdict : Effect → Bool → Bool → Text → Text → Verdict
managed_verdict effect sealed exact_grant_only id reason = record {
  effect = effect;
  sealed = sealed;
  exact_grant_only = exact_grant_only;
  source = record { stage = DecisionStage.managed; id = id };
  reason = reason;
}

abbrev pub before_steps : List DecisionStep → ManagedResult → ManagedResult
before_steps steps m = record m { steps = steps ++ m.steps }

-- The body of the loop at a rule that matches; `continue'` is the rest of the loop, which a deny
-- breaks out of.
unfoldable pub at_managed_rule :
    ManagedEffect → ManagedRule → (Verdict → Bool → ManagedResult) → Verdict → Bool → ManagedResult
at_managed_rule ManagedEffect.deny rule continue' v forced = record {
  verdict = managed_verdict Effect.deny true false rule.id rule.reason;
  forced_ask = forced;
  steps = managed_step rule.id (opinion Outcome.deny) rule.reason ∷ [];
}
at_managed_rule ManagedEffect.ask rule continue' v forced =
    if is_allow v.effect
    then before_steps (managed_step rule.id (opinion Outcome.ask) rule.reason ∷ [])
        (continue' (managed_verdict Effect.ask false true rule.id rule.reason) true)
    else continue' v forced

module _ (action : NormalizedAction) (home_dir digest : Text) where
  unfoldable pub managed_loop : List ManagedRule → Verdict → Bool → ManagedResult
  unfolding at_managed_rule
  managed_loop [] v forced = record { verdict = v; forced_ask = forced; steps = [] }
  managed_loop (rule ∷ rules) v forced =
      if not (matches_action rule.match action home_dir digest)
      then managed_loop rules v forced
      else at_managed_rule rule.effect rule (managed_loop rules) v forced

abbrev pub is_network : NormalizedAction → Bool
is_network (NormalizedAction.network m url host port scheme) = true
is_network _ = false

-- The test before the loop.
unfoldable pub network_ceiling :
    NormalizedAction → ManagedPolicy → Verdict → Verdict × List DecisionStep
network_ceiling action managed v =
    if is_network action && not managed.network_allowed
    then (
      managed_verdict Effect.deny true false (str "managed.network-disabled")
          (str "managed policy disables network access entirely"),
      managed_step (str "managed.network-disabled") (opinion Outcome.deny)
            (str "managed ceiling: network is off")
          ∷ [],
    )
    else (v, [])

unfoldable pub managed_stage : NormalizedAction → PolicyContext → Text → Verdict → ManagedResult
unfolding managed_loop network_ceiling
managed_stage action ctx digest v =
    let (w, steps) = network_ceiling action ctx.managed_policy v in
    before_steps steps (managed_loop action ctx.home_dir digest ctx.managed_policy.rules w false)
