-- ===== src/Policy/Engine/Scenarios.antt =====
-- Runs of the engine on protected paths, edits, users and two ceilings, and its theorems at them.
use qwen_harness.Prelude.{
  max, true, false, [], ◌∷◌, ◌≡◌, refl, ◌⊎◌, str, none, some, is_empty, Some, any, text_eq,
  starts_with, split, has_char, ends_with,
}
use mathlib.Core.List.{Memᴰ}
use qwen_harness.Protocol.{PermissionProfile, ActorKind}
use qwen_harness.Policy.Action.{NormalizedAction, is_side_effect, action_paths, is_write_action}
use qwen_harness.Policy.Action.Canonical.{
  check_canonical_action, check_path, path_failures, field_failures, has_empty_segment, is_hex64,
}
use qwen_harness.Policy.Paths.{
  classify_path, classify_from, classify_by, first_pattern, sensitive_edit_reason,
}
use qwen_harness.Policy.Paths.Rules.{
  protected_path_rules, applies_to, git_hook_patterns, package_patterns, executable_patterns,
}
use qwen_harness.Policy.Paths.Glob.{match_glob}
use qwen_harness.Policy.Paths.Within.{is_within, below, expand_home}
use qwen_harness.Policy.Effect.{Outcome}
use qwen_harness.Policy.Rules.{merge_rules}
use qwen_harness.Policy.Managed.{
  ManagedRule, ManagedEffect, ManagedPolicy, intersect_managed, union_rules,
}
use qwen_harness.Policy.Grants.{
  Grant, GrantScope, is_rule, has_digest, is_grant_live, find_grant, find_grant_from, grant_matches,
  grant_refusal,
}
use qwen_harness.Policy.Engine.Stages.{
  PolicyContext, profile_stage, auto_accept_edits_refusal, protected_stage, rule_stage, grant_stage,
  hook_stage, managed_stage, network_ceiling,
}
use qwen_harness.Policy.Engine.{
  evaluate, before_managed, protected_matches, is_profile_stage, passes_through,
}
use qwen_harness.Policy.Engine.Results.{outcome_rank}
use qwen_harness.Policy.Engine.Pipeline.{protected_needs_exact_grant}
use qwen_harness.Policy.Engine.Canonicity.{climbing_denied}
use qwen_harness.Policy.Engine.Meet.{intersect_managed_drops, evaluate-intersect_managed}
use qwen_harness.Policy.Engine.Samples.{
  canonical_remove_all, plain_platform, remove_all, deny_rm, open_ceiling, yolo_context,
}

-- A read of a key file under `ask`, with a grant for exactly this action.
abbrev read_key : NormalizedAction
read_key = NormalizedAction.file_read (str "/w/id.pem")

abbrev key_grant : Grant
key_grant = record {
  id = str "g1";
  scope = GrantScope.session;
  action_digest = some (str "d0");
  match = none;
  granted_at = 1;
  expires_at = none;
  revoked_at = none;
  used_at = none;
  granted_by = str "u";
  reason = str "needed";
}

abbrev granted_context : PolicyContext
granted_context = record yolo_context { profile = PermissionProfile.ask; grants = key_grant ∷ [] }

key_is_protected : is_empty (protected_matches plain_platform read_key granted_context) ≡ false
unfolding protected_matches classify_path classify_from classify_by first_pattern
    protected_path_rules applies_to is_within below expand_home match_glob is_write_action
    action_paths str starts_with text_eq ends_with
key_is_protected = refl

key_is_granted : (evaluate plain_platform read_key granted_context).outcome ≡ Outcome.allow
unfolding evaluate before_managed profile_stage protected_stage rule_stage merge_rules grant_stage
    find_grant find_grant_from grant_matches grant_refusal is_grant_live hook_stage managed_stage
    network_ceiling passes_through check_canonical_action check_path path_failures field_failures
    has_empty_segment is_side_effect protected_matches classify_path classify_from classify_by
    first_pattern protected_path_rules applies_to is_within below expand_home match_glob
    is_write_action action_paths str starts_with text_eq ends_with split has_char
key_is_granted = refl

protected_needs_exact_grant_example :
    Some
      (λ g.
        (is_rule g.scope ≡ false)
        × (has_digest g.action_digest (str "d0") ≡ true)
        × (is_grant_live g 100 ≡ none))
      (key_grant ∷ [])
protected_needs_exact_grant_example =
    protected_needs_exact_grant plain_platform read_key granted_context refl key_is_protected
      (rw key_is_granted)

abbrev user_context : PolicyContext
user_context = record yolo_context { actor = record { kind = ActorKind.user; id = str "u" } }

user_passes : (evaluate plain_platform remove_all user_context).outcome ≡ Outcome.passthrough
unfolding evaluate before_managed profile_stage protected_stage rule_stage merge_rules grant_stage
    find_grant find_grant_from grant_matches grant_refusal is_grant_live hook_stage managed_stage
    network_ceiling passes_through check_canonical_action check_path path_failures field_failures
    has_empty_segment is_side_effect protected_matches classify_path classify_from classify_by
    first_pattern protected_path_rules applies_to is_within below expand_home match_glob
    is_write_action action_paths str starts_with text_eq ends_with split has_char
user_passes = refl

abbrev edit : NormalizedAction
edit =
    NormalizedAction.file_edit (str "/w/a.ts") false
      (str "0123456789abcdef0123456789abcdef0123456789abcdef0123456789abcdef")

abbrev edit_context : PolicyContext
edit_context = record yolo_context { profile = PermissionProfile.auto_accept_edits }

edit_accepted :
    ((evaluate plain_platform edit edit_context).outcome ≡ Outcome.allow)
    × (is_profile_stage (evaluate plain_platform edit edit_context).source.stage ≡ true)
unfolding evaluate before_managed profile_stage auto_accept_edits_refusal sensitive_edit_reason
    git_hook_patterns package_patterns executable_patterns protected_stage rule_stage merge_rules
    grant_stage find_grant find_grant_from grant_matches grant_refusal is_grant_live hook_stage
    managed_stage network_ceiling passes_through check_canonical_action check_path path_failures
    field_failures has_empty_segment is_hex64 is_side_effect protected_matches classify_path
    classify_from classify_by first_pattern protected_path_rules applies_to is_within below
    expand_home match_glob is_write_action action_paths str starts_with text_eq ends_with split
    has_char
edit_accepted = (refl, refl)

abbrev ask_rm : ManagedRule
ask_rm = record deny_rm { id = str "ask-rm"; effect = ManagedEffect.ask }

abbrev first_ceiling : ManagedPolicy
first_ceiling = record open_ceiling { rules = ask_rm ∷ [] }

abbrev second_ceiling : ManagedPolicy
second_ceiling = record open_ceiling { rules = deny_rm ∷ [] }

evaluate-intersect_managed_example :
    outcome_rank
      (evaluate plain_platform remove_all (record yolo_context {
        managed_policy = intersect_managed first_ceiling second_ceiling;
      })).outcome
    ≡ max
        (outcome_rank
          (evaluate plain_platform remove_all
            (record yolo_context { managed_policy = first_ceiling })).outcome)
        (outcome_rank
          (evaluate plain_platform remove_all
            (record yolo_context { managed_policy = second_ceiling })).outcome)
unfolding str text_eq
evaluate-intersect_managed_example =
    evaluate-intersect_managed plain_platform remove_all yolo_context first_ceiling second_ceiling
      (refl, (refl, tt)) canonical_remove_all

intersect_managed_drops_example :
    Memᴰ ask_rm (ask_rm ∷ [])
    ⊎ (any (λ (x : ManagedRule). text_eq x.id (str "ask-rm")) (ask_rm ∷ []) ≡ false)
unfolding intersect_managed union_rules str text_eq
intersect_managed_drops_example =
    intersect_managed_drops first_ceiling second_ceiling ask_rm (Memᴰ.head refl)

climbing_denied_example :
    (evaluate plain_platform
      (NormalizedAction.file_read (str "/w/../etc/shadow"))
      user_context).outcome
    ≡ Outcome.deny
unfolding action_paths str text_eq split
climbing_denied_example =
    climbing_denied plain_platform (NormalizedAction.file_read (str "/w/../etc/shadow"))
      user_context (str "/w/../etc/shadow") (Memᴰ.head refl) refl
