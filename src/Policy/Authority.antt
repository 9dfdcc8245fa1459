-- ===== src/Policy/Authority.antt =====
-- packages/policy/src/authority.ts: what a child agent, a teammate or a job may do.
pub mod Delegation
pub mod Chains
use qwen_harness.Prelude.{
  ℕ, ◌-◌, min, max, Bool, true, false, not, ◌&&◌, ◌||◌, List, [], ◌∷◌, ◌++◌, map, Text, str,
  includes, text_eq, is_empty, any, keep, if◌then◌else◌, ltb,
}
use qwen_harness.Protocol.{
  PermissionProfile, IsolationMode, default_isolation, default_network_allowed,
}
use qwen_harness.Policy.Effect.{Outcome}
use qwen_harness.Policy.Rules.{PolicyRule}
use qwen_harness.Policy.Grants.{Grant}
use qwen_harness.Policy.Managed.{
  ManagedPolicy, profile_rank, isolation_rank, least_profile, strictest_isolation,
}
use qwen_harness.Policy.Paths.Within.{is_within}

pub record Authority : Type 0 where
  pub profile : PermissionProfile
  pub isolation : IsolationMode
  pub network_allowed : Bool
  pub workspace_roots : List Text
  pub rules : List PolicyRule
  pub grants : List Grant
  pub max_child_depth : ℕ

unfoldable pub default_authority : PermissionProfile → Text → ManagedPolicy → Authority
default_authority profile workspace_root managed =
    let capped = least_profile profile managed.max_profile in
    record {
      profile = capped;
      isolation = strictest_isolation (default_isolation capped) managed.max_isolation;
      network_allowed = default_network_allowed capped && managed.network_allowed;
      workspace_roots = workspace_root ∷ [];
      rules = [];
      grants = [];
      max_child_depth = managed.max_child_depth;
    }

abbrev pub allows : Outcome → Bool
allows Outcome.allow = true
allows _ = false

abbrev pub restricts : Outcome → Bool
restricts Outcome.deny = true
restricts Outcome.ask = true
restricts _ = false

-- The ids of the rules that allow.
unfoldable pub allow_ids : List PolicyRule → List Text
allow_ids rules = map (λ (r : PolicyRule). r.id) (keep (λ (r : PolicyRule). allows r.effect) rules)

unfoldable pub grant_ids : List Grant → List Text
grant_ids grants = map (λ (g : Grant). g.id) grants

-- `parentRoots.some((parentRoot) => isWithin(parentRoot, root))`
unfoldable pub is_covered : List Text → Text → Bool
is_covered parent_roots root = any (λ parent_root. is_within parent_root root) parent_roots

-- Does a requested rule survive?
unfoldable pub rule_survives : Authority → PolicyRule → Bool
rule_survives parent rule =
    restricts rule.effect
    || allows rule.effect
      && includes (allow_ids parent.rules) rule.id
      && not (any (λ (p : PolicyRule). text_eq p.id rule.id) parent.rules)

-- Depths are natural numbers: `Math.max(0, …)` is what `-` does on them.
unfoldable pub intersect : Authority → Authority → ManagedPolicy → Authority
intersect requested parent managed = record {
  profile = least_profile (least_profile requested.profile parent.profile) managed.max_profile;
  isolation =
      strictest_isolation (strictest_isolation requested.isolation parent.isolation)
        managed.max_isolation;
  network_allowed = requested.network_allowed && parent.network_allowed && managed.network_allowed;
  workspace_roots = keep (is_covered parent.workspace_roots) (
      if is_empty requested.workspace_roots
      then parent.workspace_roots
      else requested.workspace_roots);
  rules = parent.rules ++ keep (rule_survives parent) requested.rules;
  grants = keep (λ g. includes (grant_ids parent.grants) g.id) requested.grants;
  max_child_depth =
      max 0
        (min (min requested.max_child_depth (parent.max_child_depth - 1)) managed.max_child_depth);
}

pub record AuthorityViolation : Type 0 where
  pub field : Text
  pub detail : Text

abbrev violation : Bool → Text → Text → List AuthorityViolation
violation holds field detail = if holds then record { field = field; detail = detail } ∷ [] else []

profile_text : PermissionProfile → Text
profile_text PermissionProfile.plan = str "plan"
profile_text PermissionProfile.ask = str "ask"
profile_text PermissionProfile.auto_accept_edits = str "auto-accept-edits"
profile_text PermissionProfile.yolo = str "yolo"

isolation_text : IsolationMode → Text
isolation_text IsolationMode.read_only = str "read-only"
isolation_text IsolationMode.workspace_write = str "workspace-write"
isolation_text IsolationMode.disabled = str "disabled"

-- The loops over the child's roots, rules and grants.
unfoldable pub root_violations : List Text → List Text → List AuthorityViolation
root_violations parent_roots [] = []
root_violations parent_roots (root ∷ roots) =
    violation (not (is_covered parent_roots root)) (str "workspaceRoots")
      (root ++ str " is outside every parent root")
    ++ root_violations parent_roots roots

unfoldable pub rule_violations : List Text → List PolicyRule → List AuthorityViolation
rule_violations parent_ids [] = []
rule_violations parent_ids (rule ∷ rules) =
    violation (allows rule.effect && not (includes parent_ids rule.id)) (str "rules")
      (str "allow-rule " ++ (rule.id ++ str " is not held by the parent"))
    ++ rule_violations parent_ids rules

unfoldable pub grant_violations : List Text → List Grant → List AuthorityViolation
grant_violations parent_ids [] = []
grant_violations parent_ids (grant ∷ grants) =
    violation (not (includes parent_ids grant.id)) (str "grants")
      (str "grant " ++ (grant.id ++ str " is not held by the parent"))
    ++ grant_violations parent_ids grants

unfoldable pub authority_violations : Authority → Authority → List AuthorityViolation
unfolding profile_text isolation_text
authority_violations child parent =
    violation (ltb (profile_rank parent.profile) (profile_rank child.profile)) (str "profile") (
      profile_text child.profile
      ++ (str " is more permissive than " ++ profile_text parent.profile))
    ++ (violation (ltb (isolation_rank parent.isolation) (isolation_rank child.isolation))
          (str "isolation")
          (isolation_text child.isolation
            ++ (str " is weaker than " ++ isolation_text parent.isolation))
        ++ (violation (child.network_allowed && not parent.network_allowed) (str "networkAllowed")
              (str "child has network, parent does not")
            ++ (root_violations parent.workspace_roots child.workspace_roots
                ++ (rule_violations (allow_ids parent.rules) child.rules
                    ++ (grant_violations (grant_ids parent.grants) child.grants
                        ++ violation (ltb parent.max_child_depth child.max_child_depth)
                            (str "maxChildDepth")
                            (str "child may recurse deeper than its parent"))))))

unfoldable pub is_at_most : Authority → Authority → Bool
is_at_most child parent = is_empty (authority_violations child parent)
