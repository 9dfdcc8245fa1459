-- ===== src/Policy/Rules.antt =====
-- packages/policy/src/rules.ts: ordinary rules and their deny-first merge.
pub mod Merge
use qwen_harness.Prelude.{
  ℕ, Bool, true, false, not, ◌&&◌, List, [], ◌∷◌, Option, none, some, Text, if◌then◌else◌, ltb,
}
use qwen_harness.Policy.Action.{NormalizedAction}
use qwen_harness.Policy.Matcher.{ActionMatcher, matches_action}
use qwen_harness.Policy.Effect.{Outcome, Effect, restrictiveness, effect_of}

pub data RuleScope : Type 0 where
  project user local session : RuleScope

pub record PolicyRule : Type 0 where
  pub id : Text
  pub scope : RuleScope
  pub effect : Outcome
  pub match : ActionMatcher
  pub reason : Text

-- `SCOPES_THAT_MAY_ALLOW.includes(scope)`
abbrev pub may_allow : RuleScope → Bool
may_allow RuleScope.project = false
may_allow RuleScope.user = true
may_allow RuleScope.local = true
may_allow RuleScope.session = true

pub record RuleMatch : Type 0 where
  pub rule : PolicyRule
  pub effect : Outcome
  pub downgraded_from : Option Outcome

-- The winner with its effect, which is null with it.
pub record RuleMerge : Type 0 where
  pub winner : Option (Effect × RuleMatch)
  pub matches : List RuleMatch

-- `rule.effect === 'allow' && !mayAllow(rule.scope)`
abbrev pub is_downgraded : Outcome → RuleScope → Bool
is_downgraded Outcome.allow scope = not (may_allow scope)
is_downgraded _ scope = false

unfoldable pub rule_match : PolicyRule → RuleMatch
rule_match rule =
    if is_downgraded rule.effect rule.scope
    then record { rule = rule; effect = Outcome.passthrough; downgraded_from = some Outcome.allow }
    else record { rule = rule; effect = rule.effect; downgraded_from = none }

-- The body of the second loop, at a match with an effect.
abbrev challenge : Option (Effect × RuleMatch) → Effect → RuleMatch → Option (Effect × RuleMatch)
challenge none candidate match = some (candidate, match)
challenge (some (current, winner)) candidate match =
    if ltb (restrictiveness current) (restrictiveness candidate)
    then some (candidate, match)
    else some (current, winner)

-- The second loop: it skips a `passthrough`, and keeps the first of the most restrictive.
unfoldable pub pick_winner :
    Option (Effect × RuleMatch) → List RuleMatch → Option (Effect × RuleMatch)
pick_winner winner [] = winner
pick_winner winner (match ∷ matches) = elim (effect_of match.effect) [
  | none ↦ pick_winner winner matches
  | some candidate ↦ pick_winner (challenge winner candidate match) matches
]

module _ (action : NormalizedAction) (home_dir digest : Text) where
  -- The first loop.
  unfoldable pub rule_matches : List PolicyRule → List RuleMatch
  rule_matches [] = []
  rule_matches (rule ∷ rules) =
      if matches_action rule.match action home_dir digest
      then rule_match rule ∷ rule_matches rules
      else rule_matches rules

  unfoldable pub merge_rules : List PolicyRule → RuleMerge
  unfolding rule_matches pick_winner
  merge_rules rules = record {
    winner = pick_winner none (rule_matches rules);
    matches = rule_matches rules;
  }
