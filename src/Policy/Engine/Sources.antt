-- ===== src/Policy/Engine/Sources.antt =====
-- packages/policy/src/engine.ts: the source that each stage writes on its verdict.
use qwen_harness.Prelude.{
  Bool, true, false, List, [], ◌∷◌, ◌≡◌, refl, inl, inr, arith, Text, Option, none, some,
  Bool-cases, is_empty,
}
use qwen_harness.Policy.Action.{NormalizedAction, Platform}
use qwen_harness.Policy.Matcher.{matches_action}
use qwen_harness.Policy.Paths.{ProtectedMatch}
use qwen_harness.Policy.Effect.{Effect}
use qwen_harness.Policy.Rules.{RuleMatch, merge_rules}
use qwen_harness.Policy.Managed.{ManagedRule, ManagedEffect}
use qwen_harness.Policy.Engine.Stages.{
  PolicyContext, Verdict, ManagedResult, profile_stage, protected_stage, apply_winner, rule_stage,
  grant_stage, hook_stage, managed_verdict, at_managed_rule, managed_loop, network_ceiling,
  managed_stage,
}
use qwen_harness.Policy.Engine.{before_managed, protected_matches, is_profile_stage}
use qwen_harness.Policy.Engine.Results.{ceiling}
use qwen_harness.Policy.Engine.Pipeline.{after_protected, after_rules, after_grants}

abbrev FromProfile : Verdict → Type 0
FromProfile v = is_profile_stage v.source.stage ≡ true

-- `w` is `v` as far as a decision goes.
abbrev pub Keeps : Verdict → Verdict → Type 0
Keeps v w = (w.effect ≡ v.effect) × (w.sealed ≡ v.sealed) × (w.source ≡ v.source)

protected_stage-Keeps :
    (ctx : PolicyContext) (matches : List ProtectedMatch) (v : Verdict)
    → FromProfile (protected_stage ctx matches v).0
    → (protected_stage ctx matches v).0.effect ≡ Effect.allow
    → Keeps v (protected_stage ctx matches v).0 × (is_empty matches ≡ true)
unfolding protected_stage
protected_stage-Keeps ctx [] v h s = ((refl, refl, refl), refl)
protected_stage-Keeps ctx (m ∷ ms) v h s = absurd (ground arith)

apply_winner-Keeps :
    (w : Option (Effect × RuleMatch)) (v : Verdict)
    → FromProfile (apply_winner w v).0
    → Keeps v (apply_winner w v).0
unfolding apply_winner
apply_winner-Keeps none v h = (refl, refl, refl)
apply_winner-Keeps (some (e, m)) v h = ground arith

module _ (action : NormalizedAction) (ctx : PolicyContext) (digest : Text) (v : Verdict) where
  rule_stage-Keeps :
      FromProfile (rule_stage action ctx digest v).0 → Keeps v (rule_stage action ctx digest v).0
  unfolding rule_stage
  rule_stage-Keeps h =
      apply_winner-Keeps ((merge_rules action ctx.home_dir digest ctx.rules).winner) v h

  grant_stage-Keeps :
      FromProfile (grant_stage action ctx digest v).0 → Keeps v (grant_stage action ctx digest v).0
  unfolding grant_stage
  grant_stage-Keeps h = ground arith

hook_stage-Keeps :
    (ctx : PolicyContext) (v : Verdict)
    → FromProfile (hook_stage ctx v).0
    → Keeps v (hook_stage ctx v).0
unfolding hook_stage
hook_stage-Keeps ctx v h = ground arith

at_managed_rule-Keeps :
    (e : ManagedEffect) (rule : ManagedRule) (k : Verdict → Bool → ManagedResult)
    → ((w : Verdict) (f : Bool) → FromProfile ((k w f).verdict) → Keeps w ((k w f).verdict))
    → (v : Verdict) (f : Bool) → FromProfile ((at_managed_rule e rule k v f).verdict)
    → Keeps v ((at_managed_rule e rule k v f).verdict)
unfolding at_managed_rule
at_managed_rule-Keeps ManagedEffect.deny rule k ih v f h = absurd (ground arith)
at_managed_rule-Keeps ManagedEffect.ask rule k ih v f h =
    ground (arith, ih v f, ih (managed_verdict Effect.ask false true rule.id rule.reason) true)

module _ (action : NormalizedAction) (home_dir digest : Text) where
  managed_loop-Keeps :
      (rules : List ManagedRule) (v : Verdict) (f : Bool)
      → FromProfile ((managed_loop action home_dir digest rules v f).verdict)
      → Keeps v ((managed_loop action home_dir digest rules v f).verdict)
  unfolding managed_loop
  managed_loop-Keeps [] v f h = (refl, refl, refl)
  managed_loop-Keeps (rule ∷ rules) v f h =
      elim (Bool-cases (matches_action rule.match action home_dir digest)) [
        | inr miss ↦ rw miss (managed_loop-Keeps rules v f (rw miss at h))
        | inl hit ↦ rw hit (
            at_managed_rule-Keeps rule.effect rule (managed_loop action home_dir digest rules)
              (managed_loop-Keeps rules) v f (rw hit at h))
      ]

managed_stage-Keeps :
    (action : NormalizedAction) (ctx : PolicyContext) (digest : Text) (v : Verdict)
    → FromProfile ((managed_stage action ctx digest v).verdict)
    → Keeps v ((managed_stage action ctx digest v).verdict)
unfolding managed_stage network_ceiling
managed_stage-Keeps action ctx digest v h = ground (
  arith,
  managed_loop-Keeps action ctx.home_dir digest ctx.managed_policy.rules
      (network_ceiling action ctx.managed_policy v).0 false h,
)

module _ (platform : Platform) (action : NormalizedAction) (ctx : PolicyContext) where
  abbrev digest : Text
  digest = platform.action_digest action

  -- From the last stage back to the first.
  pub ceiling-Keeps :
      FromProfile ((ceiling platform action ctx).verdict)
      → (ceiling platform action ctx).verdict.effect ≡ Effect.allow
      → Keeps (profile_stage action ctx).0 ((ceiling platform action ctx).verdict)
        × (is_empty (protected_matches platform action ctx) ≡ true)
  unfolding before_managed
  ceiling-Keeps h s =
      let g = after_grants platform action ctx in
      let k6 = managed_stage-Keeps action ctx digest (hook_stage ctx g).0 h in
      let k5 = hook_stage-Keeps ctx g (ground arith) in
      let k4 =
        grant_stage-Keeps action ctx digest (after_rules platform action ctx) (ground arith) in
      let k3 =
        rule_stage-Keeps action ctx digest (after_protected platform action ctx) (ground arith) in
      let k2 =
        protected_stage-Keeps ctx (protected_matches platform action ctx)
          (profile_stage action ctx).0 (ground arith) (ground arith) in
      ground arith
