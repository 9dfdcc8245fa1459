-- ===== src/Policy/Engine/Results.antt =====
-- packages/policy/src/engine.ts: how the outcome of an evaluation is read off its last verdict.
use qwen_harness.Prelude.{
  ℕ, true, false, ◌≡◌, refl, inl, inr, arith, is_empty, Bool-cases, if◌then◌else◌,
}
use qwen_harness.Policy.Action.{NormalizedAction, Platform}
use qwen_harness.Policy.Action.Canonical.{check_canonical_action}
use qwen_harness.Policy.Effect.{Outcome, Effect, outcome_of, restrictiveness, is_allow}
use qwen_harness.Policy.Engine.Stages.{PolicyContext, ManagedResult, managed_stage}
use qwen_harness.Policy.Engine.{evaluate, before_managed, passes_through}

-- `passthrough` is an allow that skips the approval gate.
abbrev pub outcome_rank : Outcome → ℕ
outcome_rank Outcome.allow = 0
outcome_rank Outcome.passthrough = 0
outcome_rank Outcome.ask = 1
outcome_rank Outcome.deny = 2

module _ (platform : Platform) (action : NormalizedAction) (ctx : PolicyContext) where
  -- The state after stage 6.
  abbrev pub ceiling : ManagedResult
  ceiling =
      managed_stage action ctx (platform.action_digest action)
        (before_managed platform action ctx).0

  abbrev pub IsCanonical : Type 0
  IsCanonical = is_empty (check_canonical_action platform action) ≡ true

  pub outcome_canonical :
      IsCanonical
      → (evaluate platform action ctx).outcome ≡ (
          if passes_through platform action ctx ceiling
          then Outcome.passthrough
          else outcome_of ceiling.verdict.effect)
  unfolding evaluate
  outcome_canonical h = elim (Bool-cases (passes_through platform action ctx ceiling)) [
    | inl e ↦ rw (h, e)
    | inr e ↦ rw (h, e)
  ]

  pub outcome_non_canonical :
      is_empty (check_canonical_action platform action) ≡ false
      → (evaluate platform action ctx).outcome ≡ Outcome.deny
  unfolding evaluate
  outcome_non_canonical h = rw h

  -- A verdict that is no allow is the outcome.
  pub outcome_restricted :
      (e : Effect)
      → IsCanonical
      → ceiling.verdict.effect ≡ e
      → is_allow e ≡ false
      → (evaluate platform action ctx).outcome ≡ outcome_of e
  unfolding passes_through
  outcome_restricted e h p q = rw (outcome_canonical h) (ground arith)

  pub outcome_deny :
      ceiling.verdict.effect ≡ Effect.deny → (evaluate platform action ctx).outcome ≡ Outcome.deny
  outcome_deny p = elim (Bool-cases (is_empty (check_canonical_action platform action))) [
    | inl h ↦ outcome_restricted Effect.deny h p refl
    | inr h ↦ outcome_non_canonical h
  ]

  pub rank-outcome :
      IsCanonical
      → outcome_rank (evaluate platform action ctx).outcome ≡ restrictiveness ceiling.verdict.effect
  unfolding passes_through
  rank-outcome h = rw (outcome_canonical h) (ground arith)

  -- Nothing is allowed but by an allowing verdict on a canonical action.
  pub permitted_inversion :
      outcome_rank (evaluate platform action ctx).outcome ≡ 0
      → IsCanonical × (ceiling.verdict.effect ≡ Effect.allow)
  permitted_inversion h = elim (Bool-cases (is_empty (check_canonical_action platform action))) [
    | inl c ↦ (c, ground (arith, rank-outcome c))
    | inr c ↦ absurd (ground (arith, outcome_non_canonical c))
  ]

  pub allow_inversion :
      (evaluate platform action ctx).outcome ≡ Outcome.allow
      → (ceiling.verdict.effect ≡ Effect.allow)
        × ((evaluate platform action ctx).source ≡ ceiling.verdict.source)
  unfolding evaluate
  allow_inversion h = elim (Bool-cases (is_empty (check_canonical_action platform action))) [
    | inr c ↦ absurd (ground (arith, outcome_non_canonical c))
    | inl c ↦ elim (Bool-cases (passes_through platform action ctx ceiling)) [
      | inl e ↦ absurd (ground (arith, outcome_canonical c))
      | inr e ↦ (ground (arith, outcome_canonical c), rw (c, e))
    ]
  ]
