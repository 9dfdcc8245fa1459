-- ===== src/Policy/Examples.antt =====
-- The theorems on grants, rules, globs and authority at concrete inputs.
use qwen_harness.Prelude.{
  true, false, List, [], ◌∷◌, ◌++◌, ◌≡◌, refl, Text, str, text_eq, starts_with, none, some,
}
use qwen_harness.Protocol.{PermissionProfile, IsolationMode}
use qwen_harness.Policy.Action.{NormalizedAction}
use qwen_harness.Policy.Matcher.{ActionMatcher, matches_action, is_empty_matcher, argv0}
use qwen_harness.Policy.Effect.{Outcome}
use qwen_harness.Policy.Paths.Glob.{match_text_glob}
use qwen_harness.Policy.Paths.Glob.Lines.{match_text_glob-one_line, one_line}
use qwen_harness.Policy.Rules.{PolicyRule, RuleScope, merge_rules}
use qwen_harness.Policy.Rules.Merge.{merge_rules_max, winner_rank, rules_rank}
use qwen_harness.Policy.Managed.{ManagedPolicy}
use qwen_harness.Policy.Grants.{
  Grant, GrantScope, find_grant, find_grant_from, grant_matches, grant_refusal, is_grant_live,
}
use qwen_harness.Policy.Grants.Authorising.{IsFirst, find_grant-IsFirst}
use qwen_harness.Policy.Authority.{Authority, is_at_most}
use qwen_harness.Policy.Authority.Chains.{delegate, delegate-is_at_most}

abbrev any_matcher : ActionMatcher
any_matcher = record {
  kinds = none;
  paths = none;
  commands = some (str "npm" ∷ []);
  command_lines = none;
  hosts = none;
  mcp_servers = none;
  mcp_tools = none;
  digest = none;
}

abbrev run_tests : NormalizedAction
run_tests = NormalizedAction.shell (str "npm test") (str "npm" ∷ str "test" ∷ []) (str "/w")

abbrev grant_of : Text → GrantScope → Grant
grant_of id scope = record {
  id = id;
  scope = scope;
  action_digest = some (str "d");
  match = none;
  granted_at = 1;
  expires_at = none;
  revoked_at = none;
  used_at = none;
  granted_by = str "u";
  reason = str "ok";
}

abbrev grants : List Grant
grants = grant_of (str "a") GrantScope.once ∷ grant_of (str "b") GrantScope.session ∷ []

-- One use that is spent, a rule where only exact grants count, one revoked, one expired at this instant, and
-- one for the session that ends later.
abbrev several_grants : List Grant
several_grants =
    record (grant_of (str "a") GrantScope.once) { used_at = some 3 }
    ∷ record (grant_of (str "r") GrantScope.rule) { match = some any_matcher }
    ∷ record (grant_of (str "v") GrantScope.session) { revoked_at = some 4 }
    ∷ record (grant_of (str "e") GrantScope.session) { expires_at = some 5 }
    ∷ record (grant_of (str "b") GrantScope.session) { expires_at = some 6 }
    ∷ []

find_grant-IsFirst_example :
    IsFirst run_tests
      (str "d")
      (str "/h")
      true
      5
      several_grants
      (some (record (grant_of (str "b") GrantScope.session) { expires_at = some 6 }))
unfolding find_grant find_grant_from grant_matches grant_refusal is_grant_live matches_action
    is_empty_matcher argv0 match_text_glob str starts_with text_eq
find_grant-IsFirst_example = find_grant-IsFirst run_tests (str "d") (str "/h") true 5 several_grants

-- Where not only exact grants count, the rule before it is the first.
find_rule_grant :
    (find_grant run_tests (str "d") (str "/h") false 5 several_grants).grant
    ≡ some (record (grant_of (str "r") GrantScope.rule) { match = some any_matcher })
unfolding find_grant find_grant_from grant_matches grant_refusal is_grant_live matches_action
    is_empty_matcher argv0 match_text_glob str starts_with text_eq
find_rule_grant = refl

abbrev rule_of : Text → RuleScope → Outcome → PolicyRule
rule_of id scope effect = record {
  id = id;
  scope = scope;
  effect = effect;
  match = any_matcher;
  reason = str "r";
}

abbrev rules : List PolicyRule
rules =
    rule_of (str "p") RuleScope.project Outcome.allow
    ∷ rule_of (str "u") RuleScope.user Outcome.allow
    ∷ rule_of (str "s") RuleScope.session Outcome.ask
    ∷ []

merge_rules_max_example :
    winner_rank ((merge_rules run_tests (str "/h") (str "d") rules).winner)
    ≡ rules_rank run_tests (str "/h") (str "d") rules
merge_rules_max_example = merge_rules_max run_tests (str "/h") (str "d") rules

match_text_glob-one_line_example : one_line (str "rm -rf /") ≡ true
unfolding match_text_glob str starts_with text_eq
match_text_glob-one_line_example =
    match_text_glob-one_line (str "rm *") (str "rm -rf /") (unfold str in refl) refl

-- A line break in the command is out of the reach of the glob.
rm_across_lines : match_text_glob (str "rm *") (str "rm -rf /" ++ 10 ∷ []) ≡ false
unfolding match_text_glob str starts_with text_eq
rm_across_lines = refl

abbrev lead : Authority
lead = record {
  profile = PermissionProfile.auto_accept_edits;
  isolation = IsolationMode.workspace_write;
  network_allowed = false;
  workspace_roots = str "/w" ∷ [];
  rules = rules;
  grants = grants;
  max_child_depth = 2;
}

abbrev wish : Authority
wish = record lead { profile = PermissionProfile.yolo; network_allowed = true; max_child_depth = 9 }

abbrev managed : ManagedPolicy
managed = record {
  version = 1;
  rules = [];
  max_profile = PermissionProfile.yolo;
  max_isolation = IsolationMode.disabled;
  network_allowed = true;
  max_child_depth = 2;
}

delegate-is_at_most_example :
    is_at_most (delegate lead ((wish, managed) ∷ (wish, managed) ∷ [])) lead ≡ true
delegate-is_at_most_example = delegate-is_at_most lead ((wish, managed) ∷ (wish, managed) ∷ [])
