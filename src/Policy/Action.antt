-- ===== src/Policy/Action.antt =====
-- packages/policy/src/action.ts: the action that an approval binds to. A string-literal union is a
-- data type, and an interface of the union is a constructor with its fields in order.
pub mod Canonical
use qwen_harness.Prelude.{
  ℕ, Bool, true, false, List, [], ◌∷◌, ◌++◌, Text, str, show_nat, join, length, if◌then◌else◌, ◌==◌,
  any,
}

pub data ActionKind : Type 0 where
  file_read file_write file_edit patch shell git_read git_write network mcp : ActionKind

pub data GitReadOperation : Type 0 where
  status diff log show blame ls_files : GitReadOperation

pub data NormalizedAction : Type 0 where
  file_read : (path : Text) → NormalizedAction
  file_write : (path : Text) (creates_executable : Bool) (content_digest : Text) → NormalizedAction
  file_edit : (path : Text) (creates_executable : Bool) (edits_digest : Text) → NormalizedAction
  patch : (paths : List Text) (creates_executable : Bool) (patch_digest : Text) → NormalizedAction
  shell : (command : Text) (argv : List Text) (cwd : Text) → NormalizedAction
  git_read : (repo_root : Text) (operation : GitReadOperation) → NormalizedAction
  git_write :
      (repo_root operation : Text) (destructive : Bool) (argv : List Text) → NormalizedAction
  network : (method url host : Text) (port : ℕ) (scheme : Text) → NormalizedAction
  mcp : (server tool : Text) (side_effect : Bool) (arguments_digest : Text) → NormalizedAction

-- What the package takes from the platform: the sha256 of an action's canonical JSON, Unicode
-- normalisation, and `toLowerCase`. Nothing is assumed of them.
pub record Platform : Type 0 where
  pub action_digest : NormalizedAction → Text
  pub nfc : Text → Text
  pub to_lower_case : Text → Text

abbrev pub kind : NormalizedAction → ActionKind
kind (NormalizedAction.file_read path) = ActionKind.file_read
kind (NormalizedAction.file_write path x d) = ActionKind.file_write
kind (NormalizedAction.file_edit path x d) = ActionKind.file_edit
kind (NormalizedAction.patch paths x d) = ActionKind.patch
kind (NormalizedAction.shell c argv cwd) = ActionKind.shell
kind (NormalizedAction.git_read root op) = ActionKind.git_read
kind (NormalizedAction.git_write root op d argv) = ActionKind.git_write
kind (NormalizedAction.network m url host port scheme) = ActionKind.network
kind (NormalizedAction.mcp server tool s d) = ActionKind.mcp

-- The place of a kind in `ACTION_KINDS`, to compare two kinds by.
abbrev pub kind_index : ActionKind → ℕ
kind_index ActionKind.file_read = 0
kind_index ActionKind.file_write = 1
kind_index ActionKind.file_edit = 2
kind_index ActionKind.patch = 3
kind_index ActionKind.shell = 4
kind_index ActionKind.git_read = 5
kind_index ActionKind.git_write = 6
kind_index ActionKind.network = 7
kind_index ActionKind.mcp = 8

-- `kinds.includes(kind)`
abbrev pub includes_kind : List ActionKind → ActionKind → Bool
includes_kind kinds k = any (λ j. kind_index j == kind_index k) kinds

abbrev pub mutation_kinds : List ActionKind
mutation_kinds =
    ActionKind.file_write ∷ ActionKind.file_edit ∷ ActionKind.patch ∷ ActionKind.shell
    ∷ ActionKind.git_write ∷ []

unfoldable pub action_paths : NormalizedAction → List Text
action_paths (NormalizedAction.file_read path) = path ∷ []
action_paths (NormalizedAction.file_write path x d) = path ∷ []
action_paths (NormalizedAction.file_edit path x d) = path ∷ []
action_paths (NormalizedAction.patch paths x d) = paths
action_paths (NormalizedAction.shell c argv cwd) = cwd ∷ []
action_paths (NormalizedAction.git_read root op) = root ∷ []
action_paths (NormalizedAction.git_write root op d argv) = root ∷ []
action_paths (NormalizedAction.network m url host port scheme) = []
action_paths (NormalizedAction.mcp server tool s d) = []

unfoldable pub is_write_action : NormalizedAction → Bool
is_write_action (NormalizedAction.file_write path x d) = true
is_write_action (NormalizedAction.file_edit path x d) = true
is_write_action (NormalizedAction.patch paths x d) = true
is_write_action (NormalizedAction.git_write root op d argv) = true
is_write_action _ = false

unfoldable pub is_side_effect : NormalizedAction → Bool
is_side_effect (NormalizedAction.mcp server tool side_effect d) = side_effect
is_side_effect (NormalizedAction.network m url host port scheme) = true
is_side_effect action = includes_kind mutation_kinds (kind action)

abbrev operation_name : GitReadOperation → Text
operation_name GitReadOperation.status = str "status"
operation_name GitReadOperation.diff = str "diff"
operation_name GitReadOperation.log = str "log"
operation_name GitReadOperation.show = str "show"
operation_name GitReadOperation.blame = str "blame"
operation_name GitReadOperation.ls_files = str "ls-files"

-- `flag ? ' (note)' : ''`
abbrev marked : Bool → Text → Text
marked flag note = if flag then note else []

unfoldable pub describe_action : NormalizedAction → Text
describe_action (NormalizedAction.file_read path) = str "read " ++ path
describe_action (NormalizedAction.file_write path x d) =
    str "write " ++ (path ++ marked x (str " (executable)"))
describe_action (NormalizedAction.file_edit path x d) =
    str "edit " ++ (path ++ marked x (str " (executable)"))
describe_action (NormalizedAction.patch paths x d) =
    str "patch " ++ (show_nat (length paths) ++ (str " file(s): " ++ join (str ", ") paths))
describe_action (NormalizedAction.shell command argv cwd) =
    str "run `" ++ (command ++ (str "` in " ++ cwd))
describe_action (NormalizedAction.git_read root op) =
    str "git " ++ (operation_name op ++ (str " in " ++ root))
describe_action (NormalizedAction.git_write root op destructive argv) =
    str "git " ++ (op ++ (marked destructive (str " (destructive)") ++ (str " in " ++ root)))
describe_action (NormalizedAction.network method url host port scheme) = method ++ (str " " ++ url)
describe_action (NormalizedAction.mcp server tool side_effect d) =
    str "mcp " ++ (server ++ (str "/" ++ (tool ++ marked side_effect (str " (side effect)"))))
