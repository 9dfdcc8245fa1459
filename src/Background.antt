-- ===== src/Background.antt =====
-- packages/background/src/category.ts: the categories of background work and where a task runs.
pub mod Notifications
pub mod Table
pub mod State
pub mod Manager
pub mod Watch
pub mod Examples
use qwen_harness.Prelude.{Bool, not, ◌&&◌, Option, none, some, if◌then◌else◌}

pub data BackgroundCategory : Type 0 where
  local_shell local_workflow dream_consolidation : BackgroundCategory

pub data Placement : Type 0 where
  foreground background : Placement

-- A field that is left out reads as false, since the source asks for `=== true`.
pub record ForegroundHint : Type 0 where
  pub long_lived : Bool
  pub interactive : Bool

unfoldable pub classify_foreground : Option Placement → Option ForegroundHint → Placement
classify_foreground (some explicit) hint = explicit
classify_foreground none none = Placement.foreground
classify_foreground none (some hint) =
    if hint.long_lived && not hint.interactive then Placement.background else Placement.foreground
