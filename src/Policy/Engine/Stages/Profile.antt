-- ===== src/Policy/Engine/Stages/Profile.antt =====
-- packages/policy/src/engine.ts: the profile stage and the protected-path stage.
use qwen_harness.Prelude.{
  Bool, true, false, not, ◌||◌, List, [], ◌∷◌, ◌++◌, map, Option, none, some, Text, str, join,
  if◌then◌else◌, leb,
}
use qwen_harness.Protocol.{PermissionProfile, is_user}
use qwen_harness.Policy.Action.{ActionKind, NormalizedAction, kind, is_side_effect}
use qwen_harness.Policy.Paths.{
  ProtectedMatch, SensitiveEditReason, executable, git_hook, package_manifest,
  sensitive_edit_reason,
}
use qwen_harness.Policy.Paths.Rules.{
  ProtectedClass, git_internal, credential_file, user_credential_store, system_path, daemon_socket,
  metadata_endpoint,
}
use qwen_harness.Policy.Paths.Within.{is_within}
use qwen_harness.Policy.Effect.{Effect, restrictiveness, outcome_of}
use qwen_harness.Policy.Engine.Stages.Types.{
  DecisionStage, DecisionStep, opinion, PolicyContext, Verdict,
}

pub profile_name : PermissionProfile → Text
profile_name PermissionProfile.plan = str "plan"
profile_name PermissionProfile.ask = str "ask"
profile_name PermissionProfile.auto_accept_edits = str "auto-accept-edits"
profile_name PermissionProfile.yolo = str "yolo"

pub kind_name : ActionKind → Text
kind_name ActionKind.file_read = str "file-read"
kind_name ActionKind.file_write = str "file-write"
kind_name ActionKind.file_edit = str "file-edit"
kind_name ActionKind.patch = str "patch"
kind_name ActionKind.shell = str "shell"
kind_name ActionKind.git_read = str "git-read"
kind_name ActionKind.git_write = str "git-write"
kind_name ActionKind.network = str "network"
kind_name ActionKind.mcp = str "mcp"

pub class_name : ProtectedClass → Text
class_name git_internal = str "git-internal"
class_name credential_file = str "credential-file"
class_name user_credential_store = str "user-credential-store"
class_name system_path = str "system-path"
class_name daemon_socket = str "daemon-socket"
class_name metadata_endpoint = str "metadata-endpoint"

pub reason_name : SensitiveEditReason → Text
reason_name executable = str "executable"
reason_name git_hook = str "git-hook"
reason_name package_manifest = str "package-manifest"

-- The three loops of `#autoAcceptEditsAllows` over a file action; `none` is `{ ok: true }`, and
-- `some` holds the `why` of a refusal.
unfoldable pub outside_root : Text → List Text → Option Text
outside_root root [] = none
outside_root root (path ∷ paths) =
    if not (is_within root path)
    then some (path ++ str " is outside the workspace root; external paths ask")
    else outside_root root paths

unfoldable pub sensitive_path : Bool → List Text → Option Text
sensitive_path creates_executable [] = none
sensitive_path creates_executable (path ∷ paths) =
    elim (sensitive_edit_reason path creates_executable) [
      | none ↦ sensitive_path creates_executable paths
      | some reason ↦ some (
          path
          ++ (str " is a " ++ (reason_name reason ++ str "; it still asks in auto-accept-edits")))
    ]

unfoldable pub file_edit_refusal : Text → Bool → List Text → Option Text
unfolding outside_root sensitive_path
file_edit_refusal root creates_executable paths = elim (outside_root root paths) [
  | some why ↦ some why
  | none ↦ sensitive_path creates_executable paths
]

unfoldable pub auto_accept_edits_refusal : NormalizedAction → Text → Option Text
unfolding file_edit_refusal
auto_accept_edits_refusal (NormalizedAction.shell command argv cwd) root =
    some (str "shell commands always ask in auto-accept-edits, including mkdir, mv and cp")
auto_accept_edits_refusal (NormalizedAction.network m url host port scheme) root =
    some (str "network access always asks in auto-accept-edits")
auto_accept_edits_refusal (NormalizedAction.git_write repo op destructive argv) root = some (
    if destructive
    then str "destructive Git always asks"
    else str "Git writes always ask in auto-accept-edits")
auto_accept_edits_refusal (NormalizedAction.mcp server tool s d) root =
    some (str "MCP side effects always ask in auto-accept-edits")
auto_accept_edits_refusal (NormalizedAction.file_write path x d) root =
    file_edit_refusal root x (path ∷ [])
auto_accept_edits_refusal (NormalizedAction.file_edit path x d) root =
    file_edit_refusal root x (path ∷ [])
auto_accept_edits_refusal (NormalizedAction.patch paths x d) root = file_edit_refusal root x paths
auto_accept_edits_refusal (NormalizedAction.file_read path) root =
    file_edit_refusal root false (path ∷ [])
auto_accept_edits_refusal (NormalizedAction.git_read repo op) root =
    file_edit_refusal root false (repo ∷ [])

unfoldable pub profile_verdict_of : PermissionProfile → Effect → Bool → Text → Verdict
unfolding profile_name
profile_verdict_of profile effect sealed reason = record {
  effect = effect;
  sealed = sealed;
  exact_grant_only = false;
  source = record { stage = DecisionStage.profile; id = str "profile:" ++ profile_name profile };
  reason = reason;
}

-- The ladder over the profile, for a side effect of an actor that is not the user.
unfoldable pub gated_verdict : PermissionProfile → NormalizedAction → Text → Verdict
gated_verdict PermissionProfile.plan action root =
    profile_verdict_of PermissionProfile.plan Effect.deny true (
      str "'"
      ++ (kind_name (kind action)
          ++ str "' is unavailable in plan: plan exposes read, search and analysis only"))
gated_verdict PermissionProfile.yolo action root =
    profile_verdict_of PermissionProfile.yolo Effect.allow false
      (str "yolo: no interactive prompts; the managed ceiling still applies")
gated_verdict PermissionProfile.auto_accept_edits action root =
    elim (auto_accept_edits_refusal action root) [
      | none ↦
          profile_verdict_of PermissionProfile.auto_accept_edits Effect.allow false
            (str "dedicated workspace file tool inside the workspace root")
      | some why ↦ profile_verdict_of PermissionProfile.auto_accept_edits Effect.ask false why
    ]
gated_verdict PermissionProfile.ask action root =
    profile_verdict_of PermissionProfile.ask Effect.ask false
      (str "ask: every side effect prompts with its exact normalized parameters")

unfoldable pub profile_verdict : NormalizedAction → PolicyContext → Verdict
unfolding profile_verdict_of gated_verdict
profile_verdict action ctx =
    if is_user ctx.actor.kind
    then profile_verdict_of ctx.profile Effect.allow false
        (str "direct user action; the profile prompt gate applies to the agent, not the user")
    else if not (is_side_effect action)
    then profile_verdict_of ctx.profile Effect.allow false
        (str "read/search/analysis is available in every profile")
    else gated_verdict ctx.profile action ctx.workspace_root

unfoldable pub profile_stage : NormalizedAction → PolicyContext → Verdict × List DecisionStep
unfolding profile_verdict
profile_stage action ctx =
    let v = profile_verdict action ctx in
    (
      v,
      record {
        stage = DecisionStage.profile;
        id = v.source.id;
        effect = opinion (outcome_of v.effect);
        note = v.reason;
      }
          ∷ [],
    )

-- `#protectedStage`
unfoldable pub protected_verdict : PermissionProfile → ProtectedMatch → Text → Verdict
protected_verdict profile first summary = elim profile [
  | PermissionProfile.plan ↦ record {
    effect = Effect.deny;
    sealed = true;
    exact_grant_only = false;
    source = record { stage = DecisionStage.protected_path; id = first.rule_id };
    reason = str "plan denies protected access: " ++ summary;
  }
  | PermissionProfile.yolo ↦ record {
    effect = Effect.allow;
    sealed = false;
    exact_grant_only = false;
    source = record { stage = DecisionStage.protected_path; id = first.rule_id };
    reason = str "yolo: " ++ (summary ++ str " is reachable unless managed policy denies it");
  }
  | _ ↦ record {
    effect = Effect.ask;
    sealed = true;
    exact_grant_only = true;
    source = record { stage = DecisionStage.protected_path; id = first.rule_id };
    reason = summary ++ str " requires an exact approval for this specific action";
  }
]

abbrev pub is_yolo : PermissionProfile → Bool
is_yolo PermissionProfile.yolo = true
is_yolo _ = false

pub summary_of : List ProtectedMatch → Text
summary_of matches = join (str ", ") (
    map (λ (m : ProtectedMatch). m.rule_id ++ (str " (" ++ (class_name m.class ++ str ")")))
      matches)

-- A protected verdict replaces one that is no more restrictive, or any under `yolo`.
unfoldable pub with_protected : PermissionProfile → Verdict → Verdict → Verdict
with_protected profile protected v =
    if is_yolo profile || leb (restrictiveness v.effect) (restrictiveness protected.effect)
    then protected
    else record v { sealed = true }

unfoldable pub protected_stage :
    PolicyContext → List ProtectedMatch → Verdict → Verdict × List DecisionStep
unfolding protected_verdict with_protected
protected_stage ctx [] v = (v, [])
protected_stage ctx (first ∷ more) v =
    let summary = summary_of (first ∷ more) in
    let w = with_protected ctx.profile (protected_verdict ctx.profile first summary) v in
    (
      w,
      record {
        stage = DecisionStage.protected_path;
        id = first.rule_id;
        effect = opinion (outcome_of w.effect);
        note = summary ++ (str ": " ++ first.why);
      }
          ∷ [],
    )
