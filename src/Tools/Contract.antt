-- ===== src/Tools/Contract.antt =====
-- packages/tools-core/src/contract.ts: what a tool declares, and what a call of it will touch.
use qwen_harness.Prelude.{Bool, List, Text}

pub record ToolAnnotations : Type 0 where
  pub read_only : Bool
  pub destructive : Bool
  pub idempotent : Bool
  pub open_world : Bool

pub record ResourceFootprint : Type 0 where
  pub reads : List Text
  pub writes : List Text
  pub unbounded : Bool
