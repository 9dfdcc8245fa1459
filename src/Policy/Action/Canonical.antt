-- ===== src/Policy/Action/Canonical.antt =====
-- packages/policy/src/action.ts: the check that refuses an action which is not canonical.
use qwen_harness.Prelude.{
  ℕ, Bool, false, not, ◌&&◌, ◌||◌, List, [], ◌∷◌, ◌++◌, Option, none, some, Text, str, text_eq,
  includes, starts_with, ends_with, has_char, split, length, is_empty, head?, any, all,
  if◌then◌else◌, ◌==◌, ltb, leb,
}
use qwen_harness.Policy.Action.{NormalizedAction, Platform, action_paths}

pub record CanonicalityFailure : Type 0 where
  pub path : Text
  pub why : Text

-- `HEX64`, `/^[0-9a-f]{64}$/`
abbrev is_hex_digit : ℕ → Bool
is_hex_digit c = leb b'0' c && leb c b'9' || leb b'a' c && leb c b'f'

unfoldable pub is_hex64 : Text → Bool
is_hex64 s = length s == 64 && all is_hex_digit s

-- `segments.some((s, i) => s === '.' && i > 0)`
abbrev dot_after_first : List Text → Bool
dot_after_first [] = false
dot_after_first (s ∷ segments) = any (λ t. text_eq t (str ".")) segments

-- `path.includes('//')`
unfoldable pub has_empty_segment : Text → Bool
has_empty_segment [] = false
has_empty_segment (c ∷ []) = false
has_empty_segment (c ∷ d ∷ s) = c == b'/' && d == b'/' || has_empty_segment (d ∷ s)

module _ (platform : Platform) where
  open platform use {nfc, to_lower_case}

  unfoldable pub check_path : Text → Option Text
  check_path path =
      if is_empty path
      then some (str "empty path")
      else if not (starts_with path (str "/"))
      then some (str "not an absolute path")
      else if not (text_eq (nfc path) path)
      then some (str "not Unicode NFC normalized")
      else if has_char path 0
      then some (str "contains a NUL byte")
      else if includes (split path b'/') (str "..")
      then some (str "contains a '..' segment (not canonicalized)")
      else if dot_after_first (split path b'/')
      then some (str "contains a '.' segment")
      else if ltb 1 (length path) && ends_with path b'/'
      then some (str "has a trailing slash")
      else if has_empty_segment path
      then some (str "contains an empty segment")
      else none

  -- The loop over the action's paths.
  unfoldable pub path_failures : List Text → List CanonicalityFailure
  path_failures [] = []
  path_failures (path ∷ paths) = elim (check_path path) [
    | none ↦ path_failures paths
    | some why ↦ record { path = path; why = why } ∷ path_failures paths
  ]

  -- `if (bad) failures.push({ path, why })`
  abbrev failing : Bool → Text → Text → List CanonicalityFailure
  failing bad path why = if bad then record { path = path; why = why } ∷ [] else []

  -- What is pushed after the loop.
  unfoldable pub field_failures : NormalizedAction → List CanonicalityFailure
  field_failures (NormalizedAction.file_write path x content_digest) =
      failing (not (is_hex64 content_digest)) path (str "contentDigest is not a sha256 hex digest")
  field_failures (NormalizedAction.file_edit path x edits_digest) =
      failing (not (is_hex64 edits_digest)) path (str "editsDigest is not a sha256 hex digest")
  field_failures (NormalizedAction.patch paths x patch_digest) =
      failing (not (is_hex64 patch_digest)) (elim (head? paths) [ none ↦ [] | some p ↦ p ])
        (str "patchDigest is not a sha256 hex digest")
      ++ failing (is_empty paths) [] (str "a patch action must name at least one path")
  field_failures (NormalizedAction.shell command argv cwd) =
      failing (is_empty argv) cwd (str "a shell action must have a parsed argv")
  field_failures (NormalizedAction.network method url host port scheme) =
      failing (is_empty host) url (str "network host is empty")
      ++ failing (not (text_eq host (to_lower_case host))) url
          (str "network host is not lowercased")
  field_failures (NormalizedAction.mcp server tool s arguments_digest) =
      failing (not (is_hex64 arguments_digest)) []
        (str "argumentsDigest is not a sha256 hex digest")
  field_failures _ = []

  unfoldable pub check_canonical_action : NormalizedAction → List CanonicalityFailure
  check_canonical_action action = path_failures (action_paths action) ++ field_failures action
