-- ===== src/Policy/Engine/Stages/Types.antt =====
-- packages/policy/src/engine.ts: contexts, verdicts and the steps of a trace.
use qwen_harness.Prelude.{ℕ, Bool, List, Option, Text}
use qwen_harness.Protocol.{PermissionProfile, Actor}
use qwen_harness.Policy.Effect.{Outcome, Effect}
use qwen_harness.Policy.Rules.{PolicyRule}
use qwen_harness.Policy.Grants.{Grant}
use qwen_harness.Policy.Managed.{ManagedPolicy}

pub data DecisionStage : Type 0 where
  input_validation profile protected_path rule grant hook managed user_passthrough : DecisionStage

pub record DecisionSource : Type 0 where
  pub stage : DecisionStage
  pub id : Text

-- `DecisionOutcome | 'no-opinion'`
pub data StepEffect : Type 0 where
  opinion : Outcome → StepEffect
  no_opinion : StepEffect

pub record DecisionStep : Type 0 where
  pub stage : DecisionStage
  pub id : Text
  pub effect : StepEffect
  pub note : Text

pub record PolicyContext : Type 0 where
  pub profile : PermissionProfile
  pub managed_policy : ManagedPolicy
  pub rules : List PolicyRule
  pub grants : List Grant
  pub workspace_root : Text
  pub home_dir : Text
  pub now : ℕ
  pub actor : Actor
  pub hook_outcome : Option Outcome

pub record Verdict : Type 0 where
  pub effect : Effect
  pub sealed : Bool
  pub exact_grant_only : Bool
  pub source : DecisionSource
  pub reason : Text
