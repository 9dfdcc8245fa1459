-- ===== src/Policy/Authority/Delegation.antt =====
-- packages/policy/src/authority.ts: `authorityViolations` and `isAtMost` against an order of authorities.
use qwen_harness.Prelude.{
  ◌≤◌, Bool, true, false, not, ◌&&◌, List, [], ◌∷◌, ◌++◌, ◌≡◌, refl, inl, inr, ◌↔◌, arith, Text,
  includes-mem, mem-includes, is_empty, ltb, Bool-cases,
}
use mathlib.Core.List.{Memᴰ}
use qwen_harness.Policy.Rules.{PolicyRule}
use qwen_harness.Policy.Grants.{Grant}
use qwen_harness.Policy.Managed.{profile_rank, isolation_rank}
use qwen_harness.Policy.Authority.{
  Authority, AuthorityViolation, violation, allows, allow_ids, grant_ids, is_covered,
  root_violations, rule_violations, grant_violations, authority_violations, is_at_most,
}

-- The order that `authorityViolations` looks for breaches of.
pub record AtMost (child parent : Authority) : Type 0 where
  pub profile : profile_rank child.profile ≤ profile_rank parent.profile
  pub isolation : isolation_rank child.isolation ≤ isolation_rank parent.isolation
  pub network : child.network_allowed ≡ true → parent.network_allowed ≡ true
  pub roots :
      (root : Text)
      → Memᴰ root child.workspace_roots
      → is_covered parent.workspace_roots root ≡ true
  pub rules :
      (rule : PolicyRule)
      → Memᴰ rule child.rules
      → allows rule.effect ≡ true
      → Memᴰ rule.id (allow_ids parent.rules)
  pub grants : (grant : Grant) → Memᴰ grant child.grants → Memᴰ grant.id (grant_ids parent.grants)
  pub depth : child.max_child_depth ≤ parent.max_child_depth

is_empty-append {ℓ} :
    {A : Type ℓ} (xs ys : List A) → is_empty (xs ++ ys) ≡ is_empty xs && is_empty ys
is_empty-append [] ys = refl
is_empty-append (x ∷ xs) ys = refl

root_violations_sound :
    (parent roots : List Text)
    → is_empty (root_violations parent roots) ≡ true
    → (root : Text) → Memᴰ root roots
    → is_covered parent root ≡ true
unfolding root_violations
root_violations_sound parent [] h root m = elim m [ ]
root_violations_sound parent (r ∷ roots) h root (Memᴰ.head e) = rw e (ground arith)
root_violations_sound parent (r ∷ roots) h root (Memᴰ.tail m) =
    root_violations_sound parent roots (ground arith) root m

root_violations_complete :
    (parent roots : List Text)
    → ((root : Text) → Memᴰ root roots → is_covered parent root ≡ true)
    → is_empty (root_violations parent roots) ≡ true
unfolding root_violations
root_violations_complete parent [] h = refl
root_violations_complete parent (r ∷ roots) h =
    rw (h r (Memᴰ.head refl)) (root_violations_complete parent roots (λ x m. h x (Memᴰ.tail m)))

rule_violations-sound :
    (ids : List Text) (rules : List PolicyRule)
    → is_empty (rule_violations ids rules) ≡ true
    → (rule : PolicyRule) → Memᴰ rule rules
    → allows rule.effect ≡ true
    → Memᴰ rule.id ids
unfolding rule_violations
rule_violations-sound ids [] h rule m a = elim m [ ]
rule_violations-sound ids (r ∷ rules) h rule (Memᴰ.head e) a =
    includes-mem ids rule.id (ground arith)
rule_violations-sound ids (r ∷ rules) h rule (Memᴰ.tail m) a =
    rule_violations-sound ids rules (ground arith) rule m a

rule_violations_complete :
    (ids : List Text) (rules : List PolicyRule)
    → ((rule : PolicyRule) → Memᴰ rule rules → allows rule.effect ≡ true → Memᴰ rule.id ids)
    → is_empty (rule_violations ids rules) ≡ true
unfolding rule_violations
rule_violations_complete ids [] h = refl
rule_violations_complete ids (r ∷ rules) h =
    let rest = rule_violations_complete ids rules (λ x m. h x (Memᴰ.tail m)) in
    elim (Bool-cases (allows r.effect)) [
      | inl a ↦ rw (a, mem-includes ids r.id (h r (Memᴰ.head refl) a)) rest
      | inr a ↦ rw a rest
    ]

grant_violations-sound :
    (ids : List Text) (grants : List Grant)
    → is_empty (grant_violations ids grants) ≡ true
    → (grant : Grant) → Memᴰ grant grants
    → Memᴰ grant.id ids
unfolding grant_violations
grant_violations-sound ids [] h grant m = elim m [ ]
grant_violations-sound ids (g ∷ grants) h grant (Memᴰ.head e) =
    includes-mem ids grant.id (ground arith)
grant_violations-sound ids (g ∷ grants) h grant (Memᴰ.tail m) =
    grant_violations-sound ids grants (ground arith) grant m

grant_violations_complete :
    (ids : List Text) (grants : List Grant)
    → ((grant : Grant) → Memᴰ grant grants → Memᴰ grant.id ids)
    → is_empty (grant_violations ids grants) ≡ true
unfolding grant_violations
grant_violations_complete ids [] h = refl
grant_violations_complete ids (g ∷ grants) h =
    rw (mem-includes ids g.id (h g (Memᴰ.head refl)))
      (grant_violations_complete ids grants (λ x m. h x (Memᴰ.tail m)))

violation-append :
    (b : Bool) (f d : Text) (rest : List AuthorityViolation)
    → is_empty (violation b f d ++ rest) ≡ not b && is_empty rest
violation-append true f d rest = refl
violation-append false f d rest = refl

is_empty-violation : (b : Bool) (f d : Text) → is_empty (violation b f d) ≡ not b
is_empty-violation true f d = refl
is_empty-violation false f d = refl

-- The seven tests of `isAtMost`.
abbrev tests_of : Authority → Authority → Bool
tests_of c p =
    not (ltb (profile_rank p.profile) (profile_rank c.profile))
    && (not (ltb (isolation_rank p.isolation) (isolation_rank c.isolation))
        && (not (c.network_allowed && not p.network_allowed)
            && (is_empty (root_violations p.workspace_roots c.workspace_roots)
                && (is_empty (rule_violations (allow_ids p.rules) c.rules)
                    && (is_empty (grant_violations (grant_ids p.grants) c.grants)
                        && not (ltb p.max_child_depth c.max_child_depth))))))

is_at_most_tests : (c p : Authority) → is_at_most c p ≡ tests_of c p
unfolding is_at_most authority_violations
is_at_most_tests c p = simp (violation-append, is_empty-append, is_empty-violation)

-- `isAtMost` decides the order.
pub is_at_most_iff :
    (child parent : Authority) → (is_at_most child parent ≡ true) ↔ AtMost child parent
is_at_most_iff c p = (
  (λ h.
      let t : tests_of c p ≡ true = rw is_at_most_tests at h in
      record {
        profile = ground arith;
        isolation = ground arith;
        network = λ n. ground arith;
        roots = root_violations_sound p.workspace_roots c.workspace_roots (ground arith);
        rules = rule_violations-sound (allow_ids p.rules) c.rules (ground arith);
        grants = grant_violations-sound (grant_ids p.grants) c.grants (ground arith);
        depth = ground arith;
      }),
  λ o. rw is_at_most_tests (
      ground (
        arith,
        o.profile,
        o.isolation,
        o.network,
        o.depth,
        root_violations_complete p.workspace_roots c.workspace_roots o.roots,
        rule_violations_complete (allow_ids p.rules) c.rules o.rules,
        grant_violations_complete (grant_ids p.grants) c.grants o.grants,
      )),
)
