-- ===== src/Hooks/Outcome.antt =====
-- packages/hooks/src: the events, what a hook may return, and what is recorded of it.
use qwen_harness.Prelude.{ℕ, Bool, true, false, List, Option, Text}
use qwen_harness.Policy.Effect.{Outcome}

pub data HookEvent : Type 0 where
  pre_tool_use post_tool_use post_tool_use_failure session_start session_end stop stop_failure setup
        user_prompt_submit notification permission_request permission_denied subagent_start
        subagent_stop pre_compact post_compact teammate_idle task_created task_completed elicitation
        elicitation_result config_change worktree_create worktree_remove instructions_loaded
        cwd_changed file_changed user_prompt_expansion message_display post_tool_batch :
      HookEvent

unfoldable pub is_post_tool_event : HookEvent → Bool
is_post_tool_event HookEvent.post_tool_use = true
is_post_tool_event HookEvent.post_tool_use_failure = true
is_post_tool_event HookEvent.post_tool_batch = true
is_post_tool_event _ = false

-- `event === 'Stop'`
abbrev pub is_stop : HookEvent → Bool
is_stop HookEvent.stop = true
is_stop _ = false

pub record HookReason : Type 0 where
  pub code : Text
  pub message : Text

pub record McpAnnotation : Type 0 where
  pub key : Text
  pub value : Text

-- A tool's input stands as the text of its JSON.
pub data HookOutcome : Type 0 where
  continue : HookOutcome
  block : (reason : HookReason) → HookOutcome
  context : (text : Text) → HookOutcome
  modify : (tool_input : Text) → HookOutcome
  allow passthrough deny ask stop : (reason : HookReason) → HookOutcome
  annotate : (annotations : List McpAnnotation) → HookOutcome

pub data HookOutcomeType : Type 0 where
  continue block context modify allow passthrough deny ask stop annotate : HookOutcomeType

-- `outcome.type`
unfoldable pub type_of : HookOutcome → HookOutcomeType
type_of HookOutcome.continue = HookOutcomeType.continue
type_of (HookOutcome.block reason) = HookOutcomeType.block
type_of (HookOutcome.context text) = HookOutcomeType.context
type_of (HookOutcome.modify tool_input) = HookOutcomeType.modify
type_of (HookOutcome.allow reason) = HookOutcomeType.allow
type_of (HookOutcome.passthrough reason) = HookOutcomeType.passthrough
type_of (HookOutcome.deny reason) = HookOutcomeType.deny
type_of (HookOutcome.ask reason) = HookOutcomeType.ask
type_of (HookOutcome.stop reason) = HookOutcomeType.stop
type_of (HookOutcome.annotate annotations) = HookOutcomeType.annotate

pub data HookFailureKind : Type 0 where
  timeout cancelled nonzero_exit spawn_error transport malformed_output exception misconfigured :
      HookFailureKind

-- A failure before the engine puts the hook's id to it; its message is left out.
pub record Failure : Type 0 where
  pub kind : HookFailureKind
  pub detail : Option Text

pub data HandlerResult : Type 0 where
  outcome : (outcome : HookOutcome) → (note : Option Text) → HandlerResult
  failure : (failure : Failure) → HandlerResult

pub record AttributedReason : Type 0 where
  pub hook_id : Text
  pub reason : HookReason

pub record ModifiedInputProposal : Type 0 where
  pub hook_id : Text
  pub tool_input : Text
  pub needs_revalidation : Bool

pub record InjectedContext : Type 0 where
  pub hook_id : Text
  pub text : Text
  pub sanitized : Bool

pub record AttributedAnnotations : Type 0 where
  pub hook_id : Text
  pub annotations : List McpAnnotation

pub data Elevation : Type 0 where
  allow passthrough : Elevation

pub record IgnoredElevation : Type 0 where
  pub hook_id : Text
  pub requested : Elevation
  pub reason : HookReason

pub record HookFailure : Type 0 where
  pub hook_id : Text
  pub failure : Failure

-- The outcome of a record of the audit: one of a handler, a failure, or none as it was skipped.
pub data RecordedOutcome : Type 0 where
  ran : HookOutcomeType → RecordedOutcome
  failure skipped : RecordedOutcome

pub data HandlerForm : Type 0 where
  function command http prompt agent engine : HandlerForm

-- The note is left out.
pub record HookInvocationRecord : Type 0 where
  pub hook_id : Text
  pub form : HandlerForm
  pub outcome : RecordedOutcome

pub record FoldedHookResult : Type 0 where
  pub event : HookEvent
  pub ran_handlers : ℕ
  pub blocked : Bool
  pub block_reason : Option AttributedReason
  pub decision : Outcome
  pub decision_changed : Bool
  pub modifications : List ModifiedInputProposal
  pub modified_input : Option ModifiedInputProposal
  pub injected_context : List InjectedContext
  pub stopped : Bool
  pub stop_reason : Option AttributedReason
  pub result_durable : Bool
  pub annotations : List AttributedAnnotations
  pub ignored_elevations : List IgnoredElevation
  pub failures : List HookFailure
  pub stop_reentry_refused : Bool
  pub audit : List HookInvocationRecord
