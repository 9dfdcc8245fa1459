-- ===== src/Policy/Rules/Merge.antt =====
-- Lemmas on merge_rules of packages/policy/src/rules.ts: its winner, and the allow rules of the repository.
use qwen_harness.Prelude.{
  ℕ, ◌+◌, ◌≤◌, max, Bool, true, false, not, List, [], ◌∷◌, ◌≡◌, refl, sym, ◌∙◌, arith, Text, Option,
  none, some, Bool-cases, Option-cases, inl, inr, keep, if◌then◌else◌,
}
use mathlib.Core.List.{Memᴰ}
use qwen_harness.Policy.Action.{NormalizedAction}
use qwen_harness.Policy.Matcher.{matches_action}
use qwen_harness.Policy.Effect.{Effect, restrictiveness, effect_of, Outcome}
use qwen_harness.Policy.Rules.{
  PolicyRule, RuleScope, RuleMatch, is_downgraded, rule_match, pick_winner, challenge, rule_matches,
  merge_rules,
}

-- 0 is "no opinion", and otherwise one more than the restrictiveness.
abbrev pub effect_rank : Option Effect → ℕ
effect_rank none = 0
effect_rank (some e) = restrictiveness e + 1

abbrev pub winner_rank : Option (Effect × RuleMatch) → ℕ
winner_rank none = 0
winner_rank (some (e, m)) = restrictiveness e + 1

abbrev pub allows_from_project : Outcome → RuleScope → Bool
allows_from_project Outcome.allow RuleScope.project = true
allows_from_project _ _ = false

-- A rule of the scope `project`, which stands in the repository's own files, that allows.
abbrev pub is_project_allow : PolicyRule → Bool
is_project_allow rule = allows_from_project rule.effect rule.scope

abbrev pub is_not_project_allow : PolicyRule → Bool
is_not_project_allow rule = not (is_project_allow rule)

-- What a rule that matches has to say.
abbrev pub rule_rank : PolicyRule → ℕ
rule_rank rule = if is_project_allow rule then 0 else effect_rank (effect_of rule.effect)

is_downgraded_lem : (e : Outcome) (s : RuleScope) → is_downgraded e s ≡ allows_from_project e s
is_downgraded_lem e s = grind arith

rule_match_rank :
    (rule : PolicyRule) → effect_rank (effect_of (rule_match rule).effect) ≡ rule_rank rule
unfolding rule_match
rule_match_rank rule = ground (arith, is_downgraded_lem rule.effect rule.scope)

challenge_rank :
    (w : Option (Effect × RuleMatch)) (e : Effect) (m : RuleMatch)
    → winner_rank (challenge w e m) ≡ max (winner_rank w) (restrictiveness e + 1)
challenge_rank none e m = ground arith
challenge_rank (some (c, k)) e m = ground arith

pick_winner_skip :
    (m : RuleMatch)
    → effect_of m.effect ≡ none
    → (w : Option (Effect × RuleMatch)) (ms : List RuleMatch)
    → pick_winner w (m ∷ ms) ≡ pick_winner w ms
unfolding pick_winner
pick_winner_skip m h w ms = ground arith

pick_winner_take :
    (m : RuleMatch) (e : Effect)
    → effect_of m.effect ≡ some e
    → (w : Option (Effect × RuleMatch)) (ms : List RuleMatch)
    → pick_winner w (m ∷ ms) ≡ pick_winner (challenge w e m) ms
unfolding pick_winner
pick_winner_take m e h w ms = ground arith

pick_winner-cons :
    (m : RuleMatch) (xs ys : List RuleMatch)
    → ((w : Option (Effect × RuleMatch)) → pick_winner w xs ≡ pick_winner w ys)
    → (w : Option (Effect × RuleMatch)) → pick_winner w (m ∷ xs) ≡ pick_winner w (m ∷ ys)
pick_winner-cons m xs ys h w = elim (Option-cases (effect_of m.effect)) [
  | inl silent ↦ pick_winner_skip m silent w xs ∙ (h w ∙ sym (pick_winner_skip m silent w ys))
  | inr (e, speaks) ↦
      pick_winner_take m e speaks w xs
      ∙ (h (challenge w e m) ∙ sym (pick_winner_take m e speaks w ys))
]

module _ (action : NormalizedAction) (home_dir digest : Text) where
  -- The most restrictive opinion among the rules that match.
  pub rules_rank : List PolicyRule → ℕ
  rules_rank [] = 0
  rules_rank (rule ∷ rules) =
      max (if matches_action rule.match action home_dir digest then rule_rank rule else 0)
        (rules_rank rules)

  pick_winner-max :
      (rules : List PolicyRule) (w : Option (Effect × RuleMatch))
      → winner_rank (pick_winner w (rule_matches action home_dir digest rules))
        ≡ max (winner_rank w) (rules_rank rules)
  unfolding rule_matches rules_rank
  pick_winner-max [] w = unfold pick_winner in omega arith
  pick_winner-max (rule ∷ rules) w =
      elim (Bool-cases (matches_action rule.match action home_dir digest)) [
        | inr miss ↦ rw miss (omega (arith, pick_winner-max rules w))
        | inl hit ↦ rw hit elim (Option-cases (effect_of (rule_match rule).effect)) [
          | inl silent ↦
              rw (pick_winner_skip (rule_match rule) silent)
                (ground (arith, pick_winner-max rules w, rule_match_rank rule))
          | inr (e, speaks) ↦ rw (pick_winner_take (rule_match rule) e speaks) (
              ground (
                arith,
                pick_winner-max rules (challenge w e (rule_match rule)),
                challenge_rank w e (rule_match rule),
                rule_match_rank rule,
              ))
        ]
      ]

  -- The merge has the most restrictive opinion of the rules that match, and no winner exactly when
  -- none of them has one.
  pub merge_rules_max :
      (rules : List PolicyRule)
      → winner_rank ((merge_rules action home_dir digest rules).winner) ≡ rules_rank rules
  unfolding merge_rules
  merge_rules_max rules = omega (arith, pick_winner-max rules none)

  pub rules_rank_of_mem :
      (rule : PolicyRule) (rules : List PolicyRule)
      → Memᴰ rule rules
      → matches_action rule.match action home_dir digest ≡ true
      → rule_rank rule ≤ rules_rank rules
  unfolding rules_rank
  rules_rank_of_mem rule [] m h = elim m [ ]
  rules_rank_of_mem rule (r ∷ rules) (Memᴰ.head e) h = ground arith
  rules_rank_of_mem rule (r ∷ rules) (Memᴰ.tail m) h =
      ground (arith, rules_rank_of_mem rule rules m h)

  pub rules_rank-le : (rules : List PolicyRule) → rules_rank rules ≤ 3
  unfolding rules_rank
  rules_rank-le [] = omega arith
  rules_rank-le (rule ∷ rules) = ground (arith, rules_rank-le rules)

  silent_of_downgraded :
      (rule : PolicyRule)
      → is_not_project_allow rule ≡ false
      → effect_of (rule_match rule).effect ≡ none
  unfolding rule_match
  silent_of_downgraded rule h = ground (arith, is_downgraded_lem rule.effect rule.scope)

  -- Rules that were downgraded can be left out.
  pick_winner-keep :
      (rules : List PolicyRule) (w : Option (Effect × RuleMatch))
      → pick_winner w (rule_matches action home_dir digest (keep is_not_project_allow rules))
        ≡ pick_winner w (rule_matches action home_dir digest rules)
  unfolding rule_matches
  pick_winner-keep [] w = refl
  pick_winner-keep (rule ∷ rules) w =
      elim (Bool-cases (matches_action rule.match action home_dir digest)) [
        | inr miss ↦ elim (Bool-cases (is_not_project_allow rule)) [
          | inl speaks ↦ rw (speaks, miss) (pick_winner-keep rules w)
          | inr silent ↦ rw (silent, miss) (pick_winner-keep rules w)
        ]
        | inl hit ↦ elim (Bool-cases (is_not_project_allow rule)) [
          | inl speaks ↦
              rw (speaks, hit) (pick_winner-cons (rule_match rule) _ _ (pick_winner-keep rules) w)
          | inr silent ↦
              rw (silent, hit)
                (pick_winner-keep rules w
                  ∙ sym (pick_winner_skip (rule_match rule) (silent_of_downgraded rule silent) w _))
        ]
      ]

  pub winner-keep :
      (rules : List PolicyRule)
      → (merge_rules action home_dir digest (keep is_not_project_allow rules)).winner
        ≡ (merge_rules action home_dir digest rules).winner
  unfolding merge_rules
  winner-keep rules = pick_winner-keep rules none
