-- ===== src/Policy/Effect.antt =====
-- packages/policy/src: the effects that rules, hooks and decisions share, and their order.
use qwen_harness.Prelude.{ℕ, Bool, true, false, Option, none, some}

-- `DecisionOutcome`, `HookOutcome` and `RuleEffect`
pub data Outcome : Type 0 where
  allow deny ask passthrough : Outcome

-- `Exclude<DecisionOutcome, 'passthrough'>`
pub data Effect : Type 0 where
  allow deny ask : Effect

abbrev pub restrictiveness : Effect → ℕ
restrictiveness Effect.allow = 0
restrictiveness Effect.ask = 1
restrictiveness Effect.deny = 2

abbrev pub outcome_of : Effect → Outcome
outcome_of Effect.allow = Outcome.allow
outcome_of Effect.deny = Outcome.deny
outcome_of Effect.ask = Outcome.ask

-- `passthrough` drops out.
abbrev pub effect_of : Outcome → Option Effect
effect_of Outcome.allow = some Effect.allow
effect_of Outcome.deny = some Effect.deny
effect_of Outcome.ask = some Effect.ask
effect_of Outcome.passthrough = none

abbrev pub is_allow : Effect → Bool
is_allow Effect.allow = true
is_allow _ = false

abbrev pub is_deny : Effect → Bool
is_deny Effect.deny = true
is_deny _ = false

abbrev pub is_ask : Effect → Bool
is_ask Effect.ask = true
is_ask _ = false
