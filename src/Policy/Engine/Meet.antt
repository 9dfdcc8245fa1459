-- ===== src/Policy/Engine/Meet.antt =====
-- packages/policy/src/managed.ts: `intersectManaged`, and the engine under the result.
use qwen_harness.Prelude.{
  max, true, false, ◌||◌, List, [], ◌∷◌, ◌++◌, ◌≡◌, refl, ap, ◌⊎◌, inl, inr, arith, Text, includes,
  text_eq, text_eq_comm, text_eq→eq, Bool-cases, any,
}
use mathlib.Core.List.{Memᴰ}
use qwen_harness.Policy.Action.{NormalizedAction, Platform}
use qwen_harness.Policy.Managed.{ManagedRule, ManagedPolicy, union_rules, intersect_managed}
use qwen_harness.Policy.Engine.Stages.{PolicyContext}
use qwen_harness.Policy.Engine.{evaluate}
use qwen_harness.Policy.Engine.Results.{outcome_rank, IsCanonical}
use qwen_harness.Policy.Engine.Ceiling.{policy_rank, ceiling_rank-append}
use qwen_harness.Policy.Engine.Hooks.{rank_at}

-- No id twice, and none that was seen.
abbrev pub HasFreshIds : List Text → List ManagedRule → Type 0
HasFreshIds seen [] = Unit
HasFreshIds seen (rule ∷ rules) =
    (includes seen rule.id ≡ false) × HasFreshIds (rule.id ∷ seen) rules

union_rules-fresh :
    (seen : List Text) (rules : List ManagedRule)
    → HasFreshIds seen rules
    → union_rules seen rules ≡ rules
unfolding union_rules
union_rules-fresh seen [] h = refl
union_rules-fresh seen (rule ∷ rules) h =
    rw (h.0) (ap (λ rs. rule ∷ rs) (union_rules-fresh (rule.id ∷ seen) rules h.1))

union_rules-unseen :
    (seen : List Text) (rules : List ManagedRule) (rule : ManagedRule)
    → Memᴰ rule (union_rules seen rules)
    → includes seen rule.id ≡ false
unfolding union_rules
union_rules-unseen seen [] rule m = elim m [ ]
union_rules-unseen seen (r ∷ rules) rule m = elim (Bool-cases (includes seen r.id)) [
  | inl old ↦ union_rules-unseen seen rules rule (rw old at m)
  | inr new ↦ taken new (union_rules-unseen (r.id ∷ seen) rules rule) (rw new at m)
]
  where
    taken :
        includes seen r.id ≡ false
        → (Memᴰ rule (union_rules (r.id ∷ seen) rules) → includes (r.id ∷ seen) rule.id ≡ false)
        → Memᴰ rule (r ∷ union_rules (r.id ∷ seen) rules)
        → includes seen rule.id ≡ false
    taken new ih (Memᴰ.head e) = rw e new
    taken new ih (Memᴰ.tail m') = ground (arith, ih m')

-- The ids that the loop has seen after a list of rules.
union_rules-append :
    (seen : List Text) (xs ys : List ManagedRule) (rule : ManagedRule)
    → Memᴰ rule (union_rules seen (xs ++ ys))
    → Memᴰ rule xs
      ⊎ (includes seen rule.id || any (λ (x : ManagedRule). text_eq x.id rule.id) xs ≡ false)
unfolding union_rules
union_rules-append seen [] ys rule m = inr (ground (arith, union_rules-unseen seen ys rule m))
union_rules-append seen (x ∷ xs) ys rule m = elim (Bool-cases (includes seen x.id)) [
  | inl old ↦ elim (union_rules-append seen xs ys rule (rw old at m)) [
    | inl here ↦ inl (Memᴰ.tail here)
    | inr away ↦ inr (elim (Bool-cases (text_eq x.id rule.id)) [
      | inl same ↦
          let known : includes seen rule.id ≡ true = rw (← text_eq→eq x.id rule.id same) old in
          absurd (ground arith)
      | inr other ↦ rw other away
    ])
  ]
  | inr new ↦ taken (union_rules-append (x.id ∷ seen) xs ys rule) (rw new at m)
]
  where
    taken :
        (Memᴰ rule (union_rules (x.id ∷ seen) (xs ++ ys))
          → Memᴰ rule xs
            ⊎ (includes (x.id ∷ seen) rule.id || any (λ (x : ManagedRule). text_eq x.id rule.id) xs
                ≡ false))
        → Memᴰ rule (x ∷ union_rules (x.id ∷ seen) (xs ++ ys))
        → Memᴰ rule (x ∷ xs)
          ⊎ (includes seen rule.id || any (λ (x : ManagedRule). text_eq x.id rule.id) (x ∷ xs)
              ≡ false)
    taken ih (Memᴰ.head e) = inl (Memᴰ.head e)
    taken ih (Memᴰ.tail m') = elim (ih m') [
      | inl here ↦ inl (Memᴰ.tail here)
      | inr away ↦ inr (ground (arith, text_eq_comm x.id rule.id))
    ]

-- A rule of the intersection is a rule of the first ceiling, or its id stands on none of these: a rule
-- of the second ceiling that shares an id with one of the first is dropped, whatever it denies.
pub intersect_managed_drops :
    (a b : ManagedPolicy) (rule : ManagedRule)
    → Memᴰ rule (intersect_managed a b).rules
    → Memᴰ rule a.rules ⊎ (any (λ (x : ManagedRule). text_eq x.id rule.id) a.rules ≡ false)
unfolding intersect_managed
intersect_managed_drops a b rule m = elim (union_rules-append [] a.rules b.rules rule m) [
  | inl here ↦ inl here
  | inr away ↦ inr away
]

policy_rank_meet :
    (action : NormalizedAction) (home_dir digest : Text) (a b : ManagedPolicy)
    → HasFreshIds [] (a.rules ++ b.rules)
    → policy_rank action home_dir digest (intersect_managed a b)
      ≡ max (policy_rank action home_dir digest a) (policy_rank action home_dir digest b)
unfolding intersect_managed
policy_rank_meet action home_dir digest a b h =
    rw (union_rules-fresh [] (a.rules ++ b.rules) h)
      (ground (arith, ceiling_rank-append action home_dir digest a.rules b.rules))

-- If the rules of two ceilings have distinct ids, a canonical action meets under their intersection
-- the more restrictive of the decisions under each of them.
pub evaluate-intersect_managed :
    (platform : Platform) (action : NormalizedAction) (ctx : PolicyContext) (a b : ManagedPolicy)
    → HasFreshIds [] (a.rules ++ b.rules)
    → IsCanonical platform action ctx
    → outcome_rank
        (evaluate platform action (record ctx { managed_policy = intersect_managed a b })).outcome
      ≡ max
          (outcome_rank (evaluate platform action (record ctx { managed_policy = a })).outcome)
          (outcome_rank (evaluate platform action (record ctx { managed_policy = b })).outcome)
evaluate-intersect_managed platform action ctx a b fresh h = omega (
  arith,
  rank_at platform action ctx ctx.hook_outcome a h,
  rank_at platform action ctx ctx.hook_outcome b h,
  rank_at platform action ctx ctx.hook_outcome (intersect_managed a b) h,
  policy_rank_meet action ctx.home_dir (platform.action_digest action) a b fresh,
)
