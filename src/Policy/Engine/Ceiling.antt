-- ===== src/Policy/Engine/Ceiling.antt =====
-- packages/policy/src/engine.ts: the managed ceiling, stage 7 of `evaluate`.
use qwen_harness.Prelude.{
  ℕ, ◌≤◌, max, Bool, true, false, not, ◌&&◌, List, [], ◌∷◌, ◌++◌, ◌≡◌, ◌∙◌, inl, inr, arith, Text,
  Bool-cases, if◌then◌else◌,
}
use mathlib.Core.List.{Memᴰ}
use qwen_harness.Policy.Action.{NormalizedAction, Platform}
use qwen_harness.Policy.Matcher.{matches_action}
use qwen_harness.Policy.Managed.{ManagedEffect, ManagedRule, ManagedPolicy}
use qwen_harness.Policy.Effect.{Outcome, Effect, restrictiveness}
use qwen_harness.Policy.Engine.Stages.{
  PolicyContext, Verdict, managed_loop, network_ceiling, is_network, at_managed_rule,
  managed_verdict, managed_stage,
}
use qwen_harness.Policy.Engine.{evaluate, before_managed}
use qwen_harness.Policy.Engine.Results.{outcome_rank, outcome_deny, rank-outcome, IsCanonical}

abbrev pub managed_effect_rank : ManagedEffect → ℕ
managed_effect_rank ManagedEffect.deny = 2
managed_effect_rank ManagedEffect.ask = 1

module _ (action : NormalizedAction) (home_dir digest : Text) where
  -- The most restrictive effect among the managed rules that match.
  pub ceiling_rank : List ManagedRule → ℕ
  ceiling_rank [] = 0
  ceiling_rank (rule ∷ rules) =
      max
        (if matches_action rule.match action home_dir digest
          then managed_effect_rank rule.effect
          else 0)
        (ceiling_rank rules)

  ceiling_rank-le : (rules : List ManagedRule) → ceiling_rank rules ≤ 2
  unfolding ceiling_rank
  ceiling_rank-le [] = omega arith
  ceiling_rank-le (rule ∷ rules) = ground (arith, ceiling_rank-le rules)

  ceiling_rank_of_mem :
      (rule : ManagedRule) (rules : List ManagedRule)
      → Memᴰ rule rules
      → matches_action rule.match action home_dir digest ≡ true
      → managed_effect_rank rule.effect ≤ ceiling_rank rules
  unfolding ceiling_rank
  ceiling_rank_of_mem rule [] m h = elim m [ ]
  ceiling_rank_of_mem rule (r ∷ rules) (Memᴰ.head e) h = ground arith
  ceiling_rank_of_mem rule (r ∷ rules) (Memᴰ.tail m) h =
      ground (arith, ceiling_rank_of_mem rule rules m h)

  pub ceiling_rank-append :
      (rules extra : List ManagedRule)
      → ceiling_rank (rules ++ extra) ≡ max (ceiling_rank rules) (ceiling_rank extra)
  unfolding ceiling_rank
  ceiling_rank-append [] extra = omega arith
  ceiling_rank-append (r ∷ rules) extra = ground (arith, ceiling_rank-append rules extra)

  at_managed_rule-max :
      (e : ManagedEffect) (rule : ManagedRule) (rules : List ManagedRule)
      → ((w : Verdict) (f : Bool)
          → restrictiveness ((managed_loop action home_dir digest rules w f).verdict.effect)
            ≡ max (restrictiveness w.effect) (ceiling_rank rules))
      → (v : Verdict) (forced : Bool)
      → restrictiveness (
          (at_managed_rule e rule
            (managed_loop action home_dir digest rules)
            v
            forced).verdict.effect)
        ≡ max (restrictiveness v.effect) (max (managed_effect_rank e) (ceiling_rank rules))
  unfolding at_managed_rule
  at_managed_rule-max ManagedEffect.deny rule rules ih v forced =
      ground (arith, ceiling_rank-le rules)
  at_managed_rule-max ManagedEffect.ask rule rules ih v forced = ground (
    arith,
    ih v forced,
    ih (managed_verdict Effect.ask false true rule.id rule.reason) true,
    ceiling_rank-le rules,
  )

  pub managed_loop-max :
      (rules : List ManagedRule) (v : Verdict) (forced : Bool)
      → restrictiveness ((managed_loop action home_dir digest rules v forced).verdict.effect)
        ≡ max (restrictiveness v.effect) (ceiling_rank rules)
  unfolding managed_loop ceiling_rank
  managed_loop-max [] v forced = omega arith
  managed_loop-max (rule ∷ rules) v forced =
      elim (Bool-cases (matches_action rule.match action home_dir digest)) [
        | inl hit ↦
            rw hit (at_managed_rule-max rule.effect rule rules (managed_loop-max rules) v forced)
        | inr miss ↦ rw miss (ground (arith, managed_loop-max rules v forced))
      ]

-- The whole ceiling, the network switch included.
abbrev pub policy_rank : NormalizedAction → Text → Text → ManagedPolicy → ℕ
policy_rank action home_dir digest managed =
    max (if is_network action && not managed.network_allowed then 2 else 0)
      (ceiling_rank action home_dir digest managed.rules)

network_ceiling-max :
    (action : NormalizedAction) (managed : ManagedPolicy) (v : Verdict)
    → restrictiveness ((network_ceiling action managed v).0.effect)
      ≡ max
          (restrictiveness v.effect)
          (if is_network action && not managed.network_allowed then 2 else 0)
unfolding network_ceiling
network_ceiling-max action managed v = ground arith

pub managed_stage-max :
    (action : NormalizedAction) (ctx : PolicyContext) (digest : Text) (v : Verdict)
    → restrictiveness ((managed_stage action ctx digest v).verdict.effect)
      ≡ max (restrictiveness v.effect) (policy_rank action ctx.home_dir digest ctx.managed_policy)
unfolding managed_stage
managed_stage-max action ctx digest v =
    let w = (network_ceiling action ctx.managed_policy v).0 in
    omega (
      arith,
      managed_loop-max action ctx.home_dir digest ctx.managed_policy.rules w false,
      network_ceiling-max action ctx.managed_policy v,
    )

module _ (platform : Platform) (action : NormalizedAction) (ctx : PolicyContext) where
  abbrev digest : Text
  digest = platform.action_digest action

  -- What the ceiling leaves of a canonical action is the more restrictive of the verdict that
  -- stages 1 to 5 reached and of the ceiling: the network switch and the managed rules that match.
  pub evaluate-max :
      IsCanonical platform action ctx
      → outcome_rank (evaluate platform action ctx).outcome
        ≡ max
            (restrictiveness ((before_managed platform action ctx).0.effect))
            (policy_rank action ctx.home_dir digest ctx.managed_policy)
  evaluate-max h =
      rank-outcome platform action ctx h
      ∙ managed_stage-max action ctx digest (before_managed platform action ctx).0

  denied_of_rank :
      2 ≤ policy_rank action ctx.home_dir digest ctx.managed_policy
      → (evaluate platform action ctx).outcome ≡ Outcome.deny
  denied_of_rank h =
      outcome_deny platform action ctx
        (ground (arith, managed_stage-max action ctx digest (before_managed platform action ctx).0))

  -- If a managed rule that denies matches the action, the action is denied: whatever the profile,
  -- the actor, the other rules, the grants and the hook.
  pub managed_deny_dominates :
      (rule : ManagedRule)
      → Memᴰ rule ctx.managed_policy.rules
      → rule.effect ≡ ManagedEffect.deny
      → matches_action rule.match action ctx.home_dir digest ≡ true
      → (evaluate platform action ctx).outcome ≡ Outcome.deny
  managed_deny_dominates rule m e h = denied_of_rank (
      ground
        (arith, ceiling_rank_of_mem action ctx.home_dir digest rule ctx.managed_policy.rules m h))

  -- If the managed policy turns the network off, every network action is denied.
  network_ceiling_denies :
      is_network action ≡ true
      → ctx.managed_policy.network_allowed ≡ false
      → (evaluate platform action ctx).outcome ≡ Outcome.deny
  network_ceiling_denies n off = denied_of_rank (ground arith)
