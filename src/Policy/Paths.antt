-- ===== src/Policy/Paths.antt =====
-- packages/policy/src/paths.ts: globs, the home directory, containment, and the classification of a
-- path. The table of protected rules and the glob engine stand in modules of their own.
pub mod Glob
pub mod Rules
pub mod Within
use qwen_harness.Prelude.{
  ℕ, Bool, true, false, not, ◌&&◌, ◌||◌, List, [], ◌∷◌, ◌++◌, Option, none, some, Text, str,
  text_eq, includes, starts_with, ends_with, any, all, if◌then◌else◌, ◌==◌, leb, ltb, length, split,
}
use qwen_harness.Policy.Paths.Glob.{match_glob}
use qwen_harness.Policy.Paths.Rules.{
  AccessKind, ProtectedClass, ProtectedPathRule, protected_path_rules, applies_to, metadata_hosts,
  git_hook_patterns, package_patterns, executable_patterns,
}
use qwen_harness.Policy.Paths.Within.{is_within, expand_home}

pub record ProtectedMatch : Type 0 where
  pub rule_id : Text
  pub class : ProtectedClass
  pub pattern : Text
  pub target : Text
  pub why : Text

pub record ProtectedLookupContext : Type 0 where
  pub workspace_root : Text
  pub home_dir : Text

-- The inner loop of `classifyPath`: the first pattern of the rule that matches.
unfoldable pub first_pattern : Text → Text → List Text → Option Text
first_pattern path home_dir [] = none
first_pattern path home_dir (pattern ∷ patterns) =
    let expanded = expand_home pattern home_dir in
    if match_glob expanded path then some expanded else first_pattern path home_dir patterns

module _ (path : Text) (access : AccessKind) (ctx : ProtectedLookupContext) where
  -- One round of the outer loop of `classifyPath`.
  unfoldable pub classify_by : ProtectedPathRule → List ProtectedMatch
  classify_by rule =
      if not (applies_to rule access)
      then []
      else if rule.workspace_exempt && is_within ctx.workspace_root path
      then []
      else elim (first_pattern path ctx.home_dir rule.patterns) [
        | none ↦ []
        | some expanded ↦
            record {
              rule_id = rule.id;
              class = rule.class;
              pattern = expanded;
              target = path;
              why = rule.why;
            }
            ∷ []
      ]

  unfoldable pub classify_from : List ProtectedPathRule → List ProtectedMatch
  classify_from [] = []
  classify_from (rule ∷ rules) = classify_by rule ++ classify_from rules

  unfoldable pub classify_path : List ProtectedMatch
  classify_path = classify_from protected_path_rules

-- `\d{1,3}`
abbrev is_octet : Text → Bool
is_octet s = ltb 0 (length s) && leb (length s) 3 && all (λ c. leb b'0' c && leb c b'9') s

-- The four fields of `LINK_LOCAL_V4`, `/^169\.254\.\d{1,3}\.\d{1,3}$/`; no field holds a dot.
abbrev is_link_local : List Text → Bool
is_link_local (a ∷ b ∷ c ∷ d ∷ []) =
    text_eq a (str "169") && text_eq b (str "254") && is_octet c && is_octet d
is_link_local _ = false

-- `h` is the host in lower case.
unfoldable pub is_metadata_host : Text → Bool
is_metadata_host h = includes metadata_hosts h || is_link_local (split h b'.')

pub data SensitiveEditReason : Type 0 where
  executable git_hook package_manifest : SensitiveEditReason

unfoldable pub sensitive_edit_reason : Text → Bool → Option SensitiveEditReason
sensitive_edit_reason path creates_executable =
    if creates_executable
    then some executable
    else if any (λ p. match_glob p path) git_hook_patterns
    then some git_hook
    else if any (λ p. match_glob p path) package_patterns
    then some package_manifest
    else if any (λ p. match_glob p path) executable_patterns
    then some executable
    else none
