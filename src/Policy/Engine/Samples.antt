-- ===== src/Policy/Engine/Samples.antt =====
-- Actions, rules and contexts for the runs of the engine.
use qwen_harness.Prelude.{
  true, false, [], ◌∷◌, ◌≡◌, refl, str, none, some, is_empty, text_eq, starts_with, split, has_char,
  ends_with,
}
use qwen_harness.Protocol.{PermissionProfile, IsolationMode, ActorKind}
use qwen_harness.Policy.Action.{NormalizedAction, Platform, action_paths}
use qwen_harness.Policy.Action.Canonical.{
  check_canonical_action, check_path, path_failures, field_failures, has_empty_segment,
}
use qwen_harness.Policy.Matcher.{ActionMatcher}
use qwen_harness.Policy.Effect.{Outcome}
use qwen_harness.Policy.Rules.{PolicyRule, RuleScope}
use qwen_harness.Policy.Managed.{ManagedRule, ManagedEffect, ManagedPolicy}
use qwen_harness.Policy.Engine.Stages.{PolicyContext}

abbrev pub plain_platform : Platform
plain_platform = record { action_digest = λ action. str "d0"; nfc = λ s. s; to_lower_case = λ s. s }

abbrev pub no_matcher : ActionMatcher
no_matcher = record {
  kinds = none;
  paths = none;
  commands = none;
  command_lines = none;
  hosts = none;
  mcp_servers = none;
  mcp_tools = none;
  digest = none;
}

abbrev pub matches_rm : ActionMatcher
matches_rm = record no_matcher { commands = some (str "rm" ∷ []) }

abbrev pub remove_all : NormalizedAction
remove_all =
    NormalizedAction.shell (str "rm -rf /w") (str "rm" ∷ str "-rf" ∷ str "/w" ∷ []) (str "/w")

abbrev pub deny_rm : ManagedRule
deny_rm = record {
  id = str "no-rm";
  effect = ManagedEffect.deny;
  match = matches_rm;
  reason = str "no rm";
}

abbrev pub open_ceiling : ManagedPolicy
open_ceiling = record {
  version = 1;
  rules = [];
  max_profile = PermissionProfile.yolo;
  max_isolation = IsolationMode.disabled;
  network_allowed = true;
  max_child_depth = 2;
}

abbrev pub yolo_context : PolicyContext
yolo_context = record {
  profile = PermissionProfile.yolo;
  managed_policy = open_ceiling;
  rules = [];
  grants = [];
  workspace_root = str "/w";
  home_dir = str "/home/u";
  now = 100;
  actor = record { kind = ActorKind.model; id = str "m" };
  hook_outcome = none;
}

abbrev pub with_deny_rm : PolicyContext
with_deny_rm = record yolo_context { managed_policy = record open_ceiling { rules = deny_rm ∷ [] } }

abbrev pub plan_context : PolicyContext
plan_context = record yolo_context { profile = PermissionProfile.plan }

abbrev pub project_rule : Outcome → PolicyRule
project_rule effect = record {
  id = str "r1";
  scope = RuleScope.project;
  effect = effect;
  match = matches_rm;
  reason = str "from the repository";
}

abbrev pub denied_context : PolicyContext
denied_context = record yolo_context { rules = project_rule Outcome.deny ∷ [] }

abbrev pub allowed_context : PolicyContext
allowed_context = record yolo_context {
  profile = PermissionProfile.ask;
  rules = project_rule Outcome.allow ∷ [];
}

abbrev pub fetch : NormalizedAction
fetch =
    NormalizedAction.network (str "GET") (str "http://example.com/") (str "example.com") 80
      (str "http")

abbrev pub offline_context : PolicyContext
offline_context = record yolo_context {
  managed_policy = record open_ceiling { network_allowed = false };
}

pub canonical_remove_all : is_empty (check_canonical_action plain_platform remove_all) ≡ true
unfolding check_canonical_action check_path path_failures field_failures action_paths
    has_empty_segment str starts_with text_eq split has_char ends_with
canonical_remove_all = refl
