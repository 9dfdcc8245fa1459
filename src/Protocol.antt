-- ===== src/Protocol.antt =====
-- packages/protocol/src/domain.ts: the permission profiles, the isolation modes, the actors and the
-- reasons for which a turn ends. The errors stand in a module of their own.
pub mod Errors
use qwen_harness.Prelude.{Bool, true, false, Text}

-- The four canonical profiles, from the most to the least restrictive.
pub data PermissionProfile : Type 0 where
  plan ask auto_accept_edits yolo : PermissionProfile

pub data IsolationMode : Type 0 where
  read_only workspace_write disabled : IsolationMode

abbrev pub default_isolation : PermissionProfile → IsolationMode
default_isolation PermissionProfile.plan = read_only
default_isolation PermissionProfile.ask = workspace_write
default_isolation PermissionProfile.auto_accept_edits = workspace_write
default_isolation PermissionProfile.yolo = disabled

abbrev pub default_network_allowed : PermissionProfile → Bool
default_network_allowed PermissionProfile.plan = false
default_network_allowed PermissionProfile.ask = false
default_network_allowed PermissionProfile.auto_accept_edits = false
default_network_allowed PermissionProfile.yolo = true

pub data ActorKind : Type 0 where
  user model subagent teammate hook cron background system mcp : ActorKind

-- The optional label is for display, and nothing modelled here reads it.
pub record Actor : Type 0 where
  pub kind : ActorKind
  pub id : Text

-- `actor.kind === 'user'`
abbrev pub is_user : ActorKind → Bool
is_user ActorKind.user = true
is_user _ = false

pub data TerminationReason : Type 0 where
  natural_completion user_cancelled turn_limit model_call_limit tool_call_limit token_limit
        time_limit :
      TerminationReason
  cost_limit retry_limit blocking_limit no_progress repeated_identical_calls oscillation :
      TerminationReason
  diminishing_returns runaway_children resource_denial_of_service hook_stop policy_denied :
      TerminationReason
  provider_error tool_error internal_error : TerminationReason
