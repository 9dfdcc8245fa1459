-- ===== src/Hooks/Registration.antt =====
-- packages/hooks/src/registry.ts: a hook as it is registered, and what it is asked about.
use qwen_harness.Prelude.{ℕ, Bool, true, false, List, Option, none, some, Text, ltb}
use qwen_harness.Policy.Effect.{Outcome}
use qwen_harness.Hooks.Outcome.{HookEvent, HookOutcome, HandlerForm}

-- What one of `executor.run`, the network broker and the two runners of prompts and agents answer.
pub record CommandResult : Type 0 where
  pub spawn_error : Option Text
  pub aborted : Bool
  pub exit_code : Option ℕ
  pub stdout : Text
  pub stderr : Text

pub record HttpResponse : Type 0 where
  pub status : ℕ
  pub body : Text

-- A handler with what running it answers; `none` stands for a port that was not injected.
pub data HookHandler : Type 0 where
  function : (answer : HookOutcome) → HookHandler
  command : (answer : Option CommandResult) → (timeout_ms : Option ℕ) → HookHandler
  http : (answer : Option HttpResponse) → (timeout_ms : Option ℕ) → HookHandler
  prompt agent : (answer : Option HookOutcome) → (timeout_ms : Option ℕ) → HookHandler

unfoldable pub form_of : HookHandler → HandlerForm
form_of (HookHandler.function answer) = HandlerForm.function
form_of (HookHandler.command answer t) = HandlerForm.command
form_of (HookHandler.http answer t) = HandlerForm.http
form_of (HookHandler.prompt answer t) = HandlerForm.prompt
form_of (HookHandler.agent answer t) = HandlerForm.agent

pub record HookInvocation : Type 0 where
  pub event : HookEvent
  pub tool_name : Option Text
  pub tool_input : Option Text
  pub paths : Option (List Text)
  pub current_decision : Option Outcome
  pub payload : Text
  pub correlation_id : Option Text

pub record HookMatcher : Type 0 where
  pub tool_name : Option Text
  pub path_glob : Option Text
  pub condition : Option (HookInvocation → Bool)

-- A priority; the source takes any number.
pub data ℤ : Type 0 where
  pos negsuc : ℕ → ℤ

unfoldable pub ltb_int : ℤ → ℤ → Bool
ltb_int (ℤ.pos a) (ℤ.pos b) = ltb a b
ltb_int (ℤ.pos a) (ℤ.negsuc b) = false
ltb_int (ℤ.negsuc a) (ℤ.pos b) = true
ltb_int (ℤ.negsuc a) (ℤ.negsuc b) = ltb b a

pub record HookRegistration : Type 0 where
  pub id : Text
  pub event : HookEvent
  pub handler : HookHandler
  pub matcher : Option HookMatcher
  pub priority : Option ℤ

-- `registration.priority ?? 0`
abbrev pub priority_of : HookRegistration → ℤ
priority_of r = elim r.priority [ none ↦ ℤ.pos 0 | some p ↦ p ]
