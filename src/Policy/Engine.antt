-- ===== src/Policy/Engine.antt =====
-- packages/policy/src/engine.ts: the permission engine. Each stage maps the verdict so far to the new
-- verdict and the steps it pushes on the trace; `evaluate` runs them in the source's order.
pub mod Stages
pub mod Results
pub mod Ceiling
pub mod Verdicts
pub mod Pipeline
pub mod Repository
pub mod Hooks
pub mod Meet
pub mod Canonicity
mod Samples
mod Examples
mod Scenarios
pub mod Sources
pub mod Profiles
use qwen_harness.Prelude.{
  ℕ, Bool, true, false, not, ◌&&◌, ◌||◌, List, [], ◌∷◌, ◌++◌, map, Option, none, some, Text, str,
  join, is_empty, if◌then◌else◌,
}
use qwen_harness.Protocol.{PermissionProfile, is_user}
use qwen_harness.Policy.Action.{
  NormalizedAction, Platform, describe_action, action_paths, is_write_action,
}
use qwen_harness.Policy.Action.Canonical.{CanonicalityFailure, check_canonical_action}
use qwen_harness.Policy.Paths.{
  ProtectedMatch, ProtectedLookupContext, classify_path, is_metadata_host,
}
use qwen_harness.Policy.Paths.Rules.{AccessKind, read, write, metadata_endpoint}
use qwen_harness.Policy.Effect.{Outcome, Effect, outcome_of, is_allow}
use qwen_harness.Policy.Engine.Stages.{
  PolicyContext, DecisionStage, DecisionSource, DecisionStep, StepEffect, opinion, no_opinion,
  Verdict, profile_stage, protected_stage, rule_stage, grant_stage, hook_stage, ManagedResult,
  managed_stage,
}

pub record PolicyDecision : Type 0 where
  pub outcome : Outcome
  pub reason : Text
  pub source : DecisionSource
  pub action_digest : Text
  pub description : Text
  pub protected_matches : List ProtectedMatch
  pub trace : List DecisionStep

-- `f.path || '<none>'`
abbrev failure_text : CanonicalityFailure → Text
failure_text f = (if is_empty f.path then str "<none>" else f.path) ++ (str ": " ++ f.why)

abbrev failures_text : List CanonicalityFailure → Text
failures_text failures = join (str "; ") (map failure_text failures)

abbrev input_source : DecisionSource
input_source = record { stage = DecisionStage.input_validation; id = str "canonical-action" }

abbrev pub is_profile_stage : DecisionStage → Bool
is_profile_stage DecisionStage.profile = true
is_profile_stage _ = false

module _ (platform : Platform) where
  open platform use {action_digest as digest_of, to_lower_case}

  abbrev access_of : NormalizedAction → AccessKind
  access_of action = if is_write_action action then write else read

  -- The loop over the action's paths.
  abbrev classify_paths : ProtectedLookupContext → AccessKind → List Text → List ProtectedMatch
  classify_paths lookup access [] = []
  classify_paths lookup access (path ∷ paths) =
      classify_path path access lookup ++ classify_paths lookup access paths

  unfoldable pub protected_matches : NormalizedAction → PolicyContext → List ProtectedMatch
  protected_matches (NormalizedAction.git_read root op) ctx = []
  protected_matches (NormalizedAction.git_write root op d argv) ctx = []
  protected_matches (NormalizedAction.network method url host port scheme) ctx =
      if is_metadata_host (to_lower_case host)
      then record {
        rule_id = str "cloud-metadata-endpoint";
        class = metadata_endpoint;
        pattern = host;
        target = url;
        why = str "the cloud instance-metadata endpoint hands out instance credentials";
      }
        ∷ []
      else []
  protected_matches action ctx =
      classify_paths (record { workspace_root = ctx.workspace_root; home_dir = ctx.home_dir })
        (access_of action) (action_paths action)

  module _ (action : NormalizedAction) (ctx : PolicyContext) where
    -- Stages 1 to 5: the verdict that the managed ceiling is intersected with.
    unfoldable pub before_managed : Verdict × List DecisionStep
    before_managed =
        let (v1, t1) = profile_stage action ctx in
        let (v2, t2) = protected_stage ctx (protected_matches action ctx) v1 in
        let (v3, t3) = rule_stage action ctx (digest_of action) v2 in
        let (v4, t4) = grant_stage action ctx (digest_of action) v3 in
        let (v5, t5) = hook_stage ctx v4 in (v5, t1 ++ (t2 ++ (t3 ++ (t4 ++ t5))))

    -- May the verdict become a passthrough?
    unfoldable pub passes_through : ManagedResult → Bool
    passes_through m =
        is_user ctx.actor.kind
        && is_allow m.verdict.effect
        && not m.verdict.sealed
        && not m.forced_ask
        && is_profile_stage m.verdict.source.stage

    refused : List CanonicalityFailure → PolicyDecision
    refused failures = record {
      outcome = Outcome.deny;
      reason = str "action is not canonical (" ++ (failures_text failures ++ str ")");
      source = input_source;
      action_digest = digest_of action;
      description = describe_action action;
      protected_matches = [];
      trace =
          record {
            stage = DecisionStage.input_validation;
            id = str "canonical-action";
            effect = opinion Outcome.deny;
            note = failures_text failures;
          }
          ∷ [];
    }

    abbrev canonical_step : DecisionStep
    canonical_step = record {
      stage = DecisionStage.input_validation;
      id = str "canonical-action";
      effect = no_opinion;
      note = str "action is canonical";
    }

    abbrev user_source : DecisionSource
    user_source = record { stage = DecisionStage.user_passthrough; id = ctx.actor.id }

    abbrev user_step : DecisionStep
    user_step = record {
      stage = DecisionStage.user_passthrough;
      id = ctx.actor.id;
      effect = opinion Outcome.passthrough;
      note =
          str
            "direct user action: no model-approval gate; isolation, audit and redaction still apply";
    }

    -- Stage 7 and the result, from the outcome of stage 6 and the trace up to there.
    finished : ManagedResult → List DecisionStep → PolicyDecision
    finished m trace =
        if passes_through m
        then record {
          outcome = Outcome.passthrough;
          reason = str "direct user action";
          source = user_source;
          action_digest = digest_of action;
          description = describe_action action;
          protected_matches = protected_matches action ctx;
          trace = trace ++ user_step ∷ [];
        }
        else record {
          outcome = outcome_of m.verdict.effect;
          reason = m.verdict.reason;
          source = m.verdict.source;
          action_digest = digest_of action;
          description = describe_action action;
          protected_matches = protected_matches action ctx;
          trace = trace;
        }

    accepted : PolicyDecision
    accepted =
        let (verdict, steps) = before_managed in
        let m = managed_stage action ctx (digest_of action) verdict in
        finished m (canonical_step ∷ (steps ++ m.steps))

    unfoldable pub evaluate : PolicyDecision
    unfolding refused finished accepted
    evaluate =
        let failures = check_canonical_action platform action in
        if is_empty failures then accepted else refused failures
