-- ===== src/Policy/Matcher.antt =====
-- packages/policy/src/matcher.ts. A matcher is an AND over the fields that are present; `none` is a
-- field that is absent.
use qwen_harness.Prelude.{
  Bool, true, false, not, ◌&&◌, List, map, Option, none, some, Text, str, text_eq, any, is_none,
  is_empty, head?,
}
use qwen_harness.Policy.Action.{ActionKind, NormalizedAction, kind, includes_kind, action_paths}
use qwen_harness.Policy.Paths.Glob.{match_glob, match_text_glob}
use qwen_harness.Policy.Paths.Within.{expand_home}

pub record ActionMatcher : Type 0 where
  pub kinds : Option (List ActionKind)
  pub paths : Option (List Text)
  pub commands : Option (List Text)
  pub command_lines : Option (List Text)
  pub hosts : Option (List Text)
  pub mcp_servers : Option (List Text)
  pub mcp_tools : Option (List Text)
  pub digest : Option Text

abbrev any_path_glob : List Text → List Text → Bool
any_path_glob patterns values = any (λ pattern. any (match_glob pattern) values) patterns

-- The source passes one value in each of its calls.
abbrev any_text_glob : List Text → Text → Bool
any_text_glob patterns value = any (λ pattern. match_text_glob pattern value) patterns

unfoldable pub is_empty_matcher : ActionMatcher → Bool
is_empty_matcher m =
    is_none m.kinds
    && is_none m.paths
    && is_none m.commands
    && is_none m.command_lines
    && is_none m.hosts
    && is_none m.mcp_servers
    && is_none m.mcp_tools
    && is_none m.digest

-- `field === undefined || test(field)`
abbrev pub absent_or {ℓ} : {A : Type ℓ} → Option A → (A → Bool) → Bool
absent_or none test = true
absent_or (some a) test = test a

-- `value !== undefined && anyTextGlob(patterns, [value])`
abbrev text_glob_on : List Text → Option Text → Bool
text_glob_on patterns none = false
text_glob_on patterns (some value) = any_text_glob patterns value

unfoldable pub argv0 : NormalizedAction → Option Text
argv0 (NormalizedAction.shell command argv cwd) = head? argv
argv0 (NormalizedAction.git_write root op d argv) = some (str "git")
argv0 (NormalizedAction.git_read root op) = some (str "git")
argv0 _ = none

abbrev command_line : NormalizedAction → Option Text
command_line (NormalizedAction.shell command argv cwd) = some command
command_line _ = none

abbrev host_of : NormalizedAction → Option Text
host_of (NormalizedAction.network m url host port scheme) = some host
host_of _ = none

abbrev server_of : NormalizedAction → Option Text
server_of (NormalizedAction.mcp server tool s d) = some server
server_of _ = none

abbrev tool_of : NormalizedAction → Option Text
tool_of (NormalizedAction.mcp server tool s d) = some tool
tool_of _ = none

-- `paths.length === 0 || !anyPathGlob(patterns, paths)`, negated
abbrev paths_match : List Text → List Text → Text → Bool
paths_match globs paths home_dir =
    not (is_empty paths) && any_path_glob (map (λ p. expand_home p home_dir) globs) paths

unfoldable pub matches_action : ActionMatcher → NormalizedAction → Text → Text → Bool
matches_action m action home_dir digest =
    not (is_empty_matcher m)
    && absent_or m.digest (λ d. text_eq d digest)
    && absent_or m.kinds (λ ks. includes_kind ks (kind action))
    && absent_or m.paths (λ globs. paths_match globs (action_paths action) home_dir)
    && absent_or m.commands (λ globs. text_glob_on globs (argv0 action))
    && absent_or m.command_lines (λ globs. text_glob_on globs (command_line action))
    && absent_or m.hosts (λ globs. text_glob_on globs (host_of action))
    && absent_or m.mcp_servers (λ globs. text_glob_on globs (server_of action))
    && absent_or m.mcp_tools (λ globs. text_glob_on globs (tool_of action))
