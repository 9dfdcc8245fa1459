-- ===== src/Policy/Managed.antt =====
-- packages/policy/src/managed.ts: the managed ceiling and the intersection of two ceilings.
use qwen_harness.Prelude.{
  ℕ, Bool, true, ◌&&◌, List, [], ◌∷◌, ◌++◌, Text, includes, if◌then◌else◌, leb, min, max,
}
use qwen_harness.Protocol.{PermissionProfile, IsolationMode, read_only, workspace_write, disabled}
use qwen_harness.Policy.Matcher.{ActionMatcher}

pub data ManagedEffect : Type 0 where
  deny ask : ManagedEffect

pub record ManagedRule : Type 0 where
  pub id : Text
  pub effect : ManagedEffect
  pub match : ActionMatcher
  pub reason : Text

pub record ManagedPolicy : Type 0 where
  pub version : ℕ
  pub rules : List ManagedRule
  pub max_profile : PermissionProfile
  pub max_isolation : IsolationMode
  pub network_allowed : Bool
  pub max_child_depth : ℕ

abbrev pub profile_rank : PermissionProfile → ℕ
profile_rank PermissionProfile.plan = 0
profile_rank PermissionProfile.ask = 1
profile_rank PermissionProfile.auto_accept_edits = 2
profile_rank PermissionProfile.yolo = 3

abbrev pub isolation_rank : IsolationMode → ℕ
isolation_rank read_only = 0
isolation_rank workspace_write = 1
isolation_rank disabled = 2

unfoldable pub least_profile : PermissionProfile → PermissionProfile → PermissionProfile
least_profile a b = if leb (profile_rank a) (profile_rank b) then a else b

unfoldable pub strictest_isolation : IsolationMode → IsolationMode → IsolationMode
strictest_isolation a b = if leb (isolation_rank a) (isolation_rank b) then a else b

unfoldable pub no_managed_restrictions : ManagedPolicy
no_managed_restrictions = record {
  version = 1;
  rules = [];
  max_profile = PermissionProfile.yolo;
  max_isolation = disabled;
  network_allowed = true;
  max_child_depth = 2;
}

-- The loop over both rule lists; `seen` holds the ids that were taken.
unfoldable pub union_rules : List Text → List ManagedRule → List ManagedRule
union_rules seen [] = []
union_rules seen (rule ∷ rules) =
    let skipped = union_rules seen rules in
    let taken = rule ∷ union_rules (rule.id ∷ seen) rules in
    if includes seen rule.id then skipped else taken

unfoldable pub intersect_managed : ManagedPolicy → ManagedPolicy → ManagedPolicy
intersect_managed a b = record {
  version = max a.version b.version;
  rules = union_rules [] (a.rules ++ b.rules);
  max_profile = least_profile a.max_profile b.max_profile;
  max_isolation = strictest_isolation a.max_isolation b.max_isolation;
  network_allowed = a.network_allowed && b.network_allowed;
  max_child_depth = min a.max_child_depth b.max_child_depth;
}
