-- ===== src/Policy/Engine/Verdicts.antt =====
-- packages/policy/src/engine.ts: predicates on a verdict and the stages 2 to 6.
use qwen_harness.Prelude.{ℕ, max, true, false, ◌≡◌, ◌⊎◌, arith, Text, Option, none, some, is_none}
use qwen_harness.Policy.Action.{NormalizedAction}
use qwen_harness.Policy.Effect.{Outcome, Effect, restrictiveness}
use qwen_harness.Policy.Rules.{RuleMatch, merge_rules}
use qwen_harness.Policy.Rules.Merge.{winner_rank}
use qwen_harness.Policy.Grants.{find_grant}
use qwen_harness.Policy.Engine.Stages.{
  PolicyContext, Verdict, apply_winner, rule_stage, grant_stage, hook_stage,
}

-- A verdict that only an exact grant can turn into an allow.
abbrev pub IsGuarded : Verdict → Type 0
IsGuarded v = (v.effect ≡ Effect.deny) ⊎ ((v.effect ≡ Effect.ask) × (v.exact_grant_only ≡ true))

apply_winner-IsGuarded :
    (w : Option (Effect × RuleMatch)) (v : Verdict) → IsGuarded v → IsGuarded (apply_winner w v).0
unfolding apply_winner
apply_winner-IsGuarded none v h = h
apply_winner-IsGuarded (some (e, m)) v h = ground arith

apply_winner_deny :
    (w : Option (Effect × RuleMatch)) (v : Verdict)
    → v.effect ≡ Effect.deny
    → (apply_winner w v).0.effect ≡ Effect.deny
unfolding apply_winner
apply_winner_deny none v h = h
apply_winner_deny (some (e, m)) v h = ground arith

-- The merge can only tighten beyond its own restrictiveness.
apply_winner_denied :
    (w : Option (Effect × RuleMatch)) (v : Verdict)
    → winner_rank w ≡ 3
    → (apply_winner w v).0.effect ≡ Effect.deny
unfolding apply_winner
apply_winner_denied none v h = absurd (omega arith)
apply_winner_denied (some (e, m)) v h = ground arith

module _ (action : NormalizedAction) (ctx : PolicyContext) (digest : Text) (v : Verdict) where
  pub rule_stage-IsGuarded : IsGuarded v → IsGuarded (rule_stage action ctx digest v).0
  unfolding rule_stage
  rule_stage-IsGuarded h =
      apply_winner-IsGuarded ((merge_rules action ctx.home_dir digest ctx.rules).winner) v h

  pub rule_stage_deny :
      v.effect ≡ Effect.deny → (rule_stage action ctx digest v).0.effect ≡ Effect.deny
  unfolding rule_stage
  rule_stage_deny h =
      apply_winner_deny ((merge_rules action ctx.home_dir digest ctx.rules).winner) v h

  pub rule_stage_denied :
      winner_rank ((merge_rules action ctx.home_dir digest ctx.rules).winner) ≡ 3
      → (rule_stage action ctx digest v).0.effect ≡ Effect.deny
  unfolding rule_stage
  rule_stage_denied h =
      apply_winner_denied ((merge_rules action ctx.home_dir digest ctx.rules).winner) v h

  pub grant_stage_deny :
      v.effect ≡ Effect.deny → (grant_stage action ctx digest v).0.effect ≡ Effect.deny
  unfolding grant_stage
  grant_stage_deny h = ground arith

  -- An allow after the grant stage was one before, or a grant was found.
  pub grant_stage_allow :
      (grant_stage action ctx digest v).0.effect ≡ Effect.allow
      → (v.effect ≡ Effect.allow)
        ⊎ ((v.effect ≡ Effect.ask)
            × (is_none
                  (find_grant action digest ctx.home_dir v.exact_grant_only ctx.now
                    ctx.grants).grant
                ≡ false))
  unfolding grant_stage
  grant_stage_allow h = ground arith

abbrev pub hook_rank : Option Outcome → ℕ
hook_rank none = 0
hook_rank (some Outcome.passthrough) = 0
hook_rank (some Outcome.allow) = 0
hook_rank (some Outcome.ask) = 1
hook_rank (some Outcome.deny) = 2

pub hook_stage-max :
    (ctx : PolicyContext) (v : Verdict)
    → restrictiveness ((hook_stage ctx v).0.effect)
      ≡ max (restrictiveness v.effect) (hook_rank ctx.hook_outcome)
unfolding hook_stage
hook_stage-max ctx v = ground arith
