-- ===== src/Policy/Grants.antt =====
-- packages/policy/src/grants.ts: approval grants, their lookup, and the validation of rule grants.
pub mod Lookup
pub mod Authorising
use qwen_harness.Prelude.{
  ℕ, Bool, true, false, not, ◌&&◌, ◌||◌, List, [], ◌∷◌, ◌++◌, map, Option, none, some, Text, str,
  text_eq, starts_with, ends_with, but_last, is_none, is_empty, if◌then◌else◌, ◌==◌, leb,
}
use qwen_harness.Policy.Action.{NormalizedAction}
use qwen_harness.Policy.Matcher.{ActionMatcher, matches_action, is_empty_matcher}
use qwen_harness.Policy.Paths.{ProtectedLookupContext, classify_path}
use qwen_harness.Policy.Paths.Rules.{read, write}
use qwen_harness.Policy.Paths.Within.{is_within}

pub data GrantScope : Type 0 where
  once session rule : GrantScope

pub record Grant : Type 0 where
  pub id : Text
  pub scope : GrantScope
  pub action_digest : Option Text
  pub match : Option ActionMatcher
  pub granted_at : ℕ
  pub expires_at : Option ℕ
  pub revoked_at : Option ℕ
  pub used_at : Option ℕ
  pub granted_by : Text
  pub reason : Text

pub data GrantRejection : Type 0 where
  expired revoked already_used no_match scope_not_allowed_here : GrantRejection

pub record GrantLookup : Type 0 where
  pub grant : Option Grant
  pub rejected : List (Grant × GrantRejection)

-- `time !== null && time <= now`
abbrev pub reached : Option ℕ → ℕ → Bool
reached none now = false
reached (some time) now = leb time now

abbrev pub is_once : GrantScope → Bool
is_once once = true
is_once _ = false

abbrev pub is_rule : GrantScope → Bool
is_rule rule = true
is_rule _ = false

-- `null` is a live grant.
unfoldable pub is_grant_live : Grant → ℕ → Option GrantRejection
is_grant_live grant now =
    if reached grant.revoked_at now
    then some revoked
    else if reached grant.expires_at now
    then some expired
    else if is_once grant.scope && not (is_none grant.used_at)
    then some already_used
    else none

-- `grant.actionDigest === digest`, false on null
abbrev pub has_digest : Option Text → Text → Bool
has_digest none digest = false
has_digest (some d) digest = text_eq d digest

module _ (action : NormalizedAction) (digest home_dir : Text) (exact_only : Bool) (now : ℕ) where
  abbrev pub matcher_matches : Option ActionMatcher → Bool
  matcher_matches none = false
  matcher_matches (some m) = matches_action m action home_dir digest

  unfoldable pub grant_matches : Grant → Bool
  grant_matches grant =
      if is_rule grant.scope
      then matcher_matches grant.match
      else has_digest grant.action_digest digest

  -- Why a grant that matches is passed over; `null` if it is the one.
  unfoldable pub grant_refusal : Grant → Option GrantRejection
  grant_refusal grant =
      if exact_only && is_rule grant.scope
      then some scope_not_allowed_here
      else is_grant_live grant now

  unfoldable pub find_grant_from : List (Grant × GrantRejection) → List Grant → GrantLookup
  find_grant_from rejected [] = record { grant = none; rejected = rejected }
  find_grant_from rejected (grant ∷ grants) =
      let skipped = find_grant_from rejected grants in
      let found : GrantLookup = elim (grant_refusal grant) [
        | none ↦ record { grant = some grant; rejected = rejected }
        | some why ↦ find_grant_from (rejected ++ (grant, why) ∷ []) grants
      ] in
      if not (grant_matches grant) then skipped else found

  unfoldable pub find_grant : List Grant → GrantLookup
  find_grant grants = find_grant_from [] grants

unfoldable pub consume_grant : List Grant → Text → ℕ → List Grant
consume_grant grants id now =
    map (λ g. if text_eq g.id id && is_once g.scope then record g { used_at = some now } else g)
      grants

unfoldable pub revoke_grant : List Grant → Text → ℕ → List Grant
revoke_grant grants id now =
    map (λ g. if text_eq g.id id then record g { revoked_at = some now } else g) grants

pub data RuleGrantProblem : Type 0 where
  not_a_rule_grant empty_matcher missing_kinds path_outside_workspace : RuleGrantProblem
  path_is_protected unbounded_path_glob : RuleGrantProblem

pub record RuleGrantValidation : Type 0 where
  pub ok : Bool
  pub problems : List RuleGrantProblem

-- The part before the first `*` or `?`, without a trailing slash.
literal_prefix : Text → Text
literal_prefix [] = []
literal_prefix (c ∷ s) = if c == b'*' || c == b'?' then [] else c ∷ literal_prefix s

unfoldable pub anchor : Text → Text
unfolding literal_prefix
anchor pattern =
    let literal = literal_prefix pattern in
    if ends_with literal b'/' then but_last literal else literal

module _ (ctx : ProtectedLookupContext) where
  unfoldable pub pattern_problem : Text → Option RuleGrantProblem
  pattern_problem pattern =
      if not (starts_with pattern (str "/"))
      then some unbounded_path_glob
      else if is_empty (anchor pattern) || not (is_within ctx.workspace_root (anchor pattern))
      then some path_outside_workspace
      else if not (is_empty (classify_path (anchor pattern) write ctx))
          || not (is_empty (classify_path (anchor pattern) read ctx))
      then some path_is_protected
      else none

  unfoldable pub pattern_problems : List Text → List RuleGrantProblem
  pattern_problems [] = []
  pattern_problems (pattern ∷ patterns) = elim (pattern_problem pattern) [
    | none ↦ pattern_problems patterns
    | some problem ↦ problem ∷ pattern_problems patterns
  ]

  abbrev or_empty : Option (List Text) → List Text
  or_empty none = []
  or_empty (some xs) = xs

  abbrev no_kinds : ActionMatcher → Bool
  no_kinds m = elim m.kinds [ none ↦ true | some kinds ↦ is_empty kinds ]

  unfoldable pub match_problems : ActionMatcher → List RuleGrantProblem
  match_problems m =
      (if is_empty_matcher m then empty_matcher ∷ [] else [])
      ++ ((if no_kinds m then missing_kinds ∷ [] else []) ++ pattern_problems (or_empty m.paths))

  abbrev validate_match : Bool → Option ActionMatcher → RuleGrantValidation
  validate_match true (some m) = record {
    ok = is_empty (match_problems m);
    problems = match_problems m;
  }
  validate_match _ _ = record { ok = false; problems = not_a_rule_grant ∷ [] }

  unfoldable pub validate_rule_grant : Grant → RuleGrantValidation
  validate_rule_grant grant = validate_match (is_rule grant.scope) grant.match
