-- ===== src/Hooks/Invoke.antt =====
-- packages/hooks/src/engine.ts: the dispatch of one handler under a deadline.
use qwen_harness.Prelude.{
  ℕ, Bool, false, not, ◌||◌, Option, none, some, Text, is_empty, ◌==◌, ltb, leb, if◌then◌else◌,
}
use qwen_harness.Hooks.Registration.{CommandResult, HttpResponse, HookHandler, HookRegistration}
use qwen_harness.Hooks.Outcome.{HookOutcome, HookFailureKind, HandlerResult}

-- Which of the races of `#withDeadline` settles first.
pub data Settled : Type 0 where
  handler deadline outer_abort thrown : Settled

abbrev pub failed : HookFailureKind → Option Text → HandlerResult
failed kind detail = HandlerResult.failure (record { kind = kind; detail = detail })

-- `text || undefined`
abbrev pub non_empty : Text → Option Text
non_empty text = if is_empty text then none else some text

-- The methods of the platform that the interpretation of a handler's output calls: `trim` and
-- `JSON.parse` with the schema of an outcome behind it, where `none` is a text either refuses.
pub record Wire : Type 0 where
  pub trim : Text → Text
  pub parse_outcome : Text → Option HookOutcome

module _ (wire : Wire) where
  unfoldable pub parsed_outcome : Option HookOutcome → Option Text → HandlerResult
  parsed_outcome none remark = failed HookFailureKind.malformed_output none
  parsed_outcome (some outcome) remark = HandlerResult.outcome outcome remark

  unfoldable pub parse_json_outcome : Text → Option Text → HandlerResult
  unfolding parsed_outcome
  parse_json_outcome text remark = parsed_outcome (wire.parse_outcome text) remark

  -- The note `stderr present` is stderr itself here.
  unfoldable pub interpret_stdout : Text → Text → HandlerResult
  unfolding parse_json_outcome
  interpret_stdout stdout stderr =
      let trimmed = wire.trim stdout in
      if is_empty trimmed
      then HandlerResult.outcome HookOutcome.continue (non_empty stderr)
      else parse_json_outcome trimmed (non_empty stderr)

  unfoldable pub interpret_body : Text → HandlerResult
  unfolding parse_json_outcome
  interpret_body body =
      let trimmed = wire.trim body in
      if is_empty trimmed
      then HandlerResult.outcome HookOutcome.continue none
      else parse_json_outcome trimmed none

  abbrev is_zero : Option ℕ → Bool
  is_zero none = false
  is_zero (some code) = code == 0

  unfoldable pub run_command : Option Text → CommandResult → HandlerResult
  unfolding interpret_stdout
  run_command (some e) r = failed HookFailureKind.spawn_error (non_empty r.stderr)
  run_command none r =
      if r.aborted
      then failed HookFailureKind.cancelled (non_empty r.stderr)
      else if not (is_zero r.exit_code)
      then failed HookFailureKind.nonzero_exit (non_empty r.stderr)
      else interpret_stdout r.stdout r.stderr

  unfoldable pub run_http : HttpResponse → HandlerResult
  unfolding interpret_body
  run_http r =
      if ltb r.status 200 || leb 300 r.status
      then failed HookFailureKind.transport (some r.body)
      else interpret_body r.body

  unfoldable pub dispatch : HookHandler → HandlerResult
  unfolding run_command run_http
  dispatch (HookHandler.function answer) = HandlerResult.outcome answer none
  dispatch (HookHandler.command none t) = failed HookFailureKind.misconfigured none
  dispatch (HookHandler.command (some r) t) = run_command r.spawn_error r
  dispatch (HookHandler.http none t) = failed HookFailureKind.misconfigured none
  dispatch (HookHandler.http (some r) t) = run_http r
  dispatch (HookHandler.prompt none t) = failed HookFailureKind.misconfigured none
  dispatch (HookHandler.prompt (some o) t) = HandlerResult.outcome o none
  dispatch (HookHandler.agent none t) = failed HookFailureKind.misconfigured none
  dispatch (HookHandler.agent (some o) t) = HandlerResult.outcome o none

  unfoldable pub settle : Settled → HandlerResult → HandlerResult
  settle Settled.handler result = result
  settle Settled.deadline result = failed HookFailureKind.timeout none
  settle Settled.outer_abort result = failed HookFailureKind.cancelled none
  settle Settled.thrown result = failed HookFailureKind.exception none

  -- The first argument is whether the signal of the run was aborted before the handler.
  unfoldable pub invoke : Bool → Settled → HookRegistration → HandlerResult
  unfolding dispatch settle
  invoke aborted settled registration =
      if aborted
      then failed HookFailureKind.cancelled none
      else settle settled (dispatch registration.handler)
