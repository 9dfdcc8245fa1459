-- ===== src/Tools/Scheduler.antt =====
-- packages/tools-core/src/scheduler.ts: the partition of a model's tool calls into batches. The
-- batches that the source pushes are the output of the loop, and `current` is its other variable.
pub mod Conflicts
pub mod Batches
use qwen_harness.Prelude.{
  ℕ, Bool, true, not, ◌&&◌, ◌||◌, List, [], ◌∷◌, ◌++◌, Text, includes, any, length, leb,
  if◌then◌else◌,
}
use qwen_harness.Tools.Contract.{ToolAnnotations, ResourceFootprint}

pub record PlannedCall : Type 0 where
  pub call_id : Text
  pub tool_name : Text
  pub annotations : ToolAnnotations
  pub footprint : ResourceFootprint

pub data BatchKind : Type 0 where
  parallel serial : BatchKind

pub record Batch : Type 0 where
  pub kind : BatchKind
  pub calls : List PlannedCall

unfoldable pub conflicts : PlannedCall → PlannedCall → Bool
conflicts a b =
    let f = a.footprint in
    let g = b.footprint in
    f.unbounded
    || (g.unbounded
        || (any (includes g.writes) f.writes
            || (any (includes g.writes) f.reads || any (includes f.writes) g.reads)))

unfoldable pub is_safe_parallel : PlannedCall → Bool
is_safe_parallel call =
    call.annotations.read_only && not call.annotations.destructive && not call.footprint.unbounded

-- The kind that `flush` gives.
unfoldable pub flushed_kind : List PlannedCall → BatchKind
flushed_kind (call ∷ []) =
    if not (is_safe_parallel call) then BatchKind.serial else BatchKind.parallel
flushed_kind _ = BatchKind.parallel

unfoldable pub flush : List PlannedCall → List Batch
unfolding flushed_kind
flush [] = []
flush (call ∷ calls) = record { kind = flushed_kind (call ∷ calls); calls = call ∷ calls } ∷ []

module _ (max_parallel : ℕ) where
  -- A call starts a new batch if it conflicts with the current one or that is full.
  unfoldable pub starts_batch : List PlannedCall → PlannedCall → Bool
  starts_batch current call =
      any (λ existing. conflicts existing call) current || leb max_parallel (length current)

  -- The loop's body: the batches it pushes, and the current batch that it leaves.
  unfoldable pub plan_step : List PlannedCall → PlannedCall → List Batch × List PlannedCall
  unfolding starts_batch flush
  plan_step current call =
      if not (is_safe_parallel call)
      then (flush current ++ record { kind = BatchKind.serial; calls = call ∷ [] } ∷ [], [])
      else if starts_batch current call
      then (flush current, call ∷ [])
      else ([], current ++ call ∷ [])

  unfoldable pub plan_from : List PlannedCall → List PlannedCall → List Batch
  unfolding plan_step
  plan_from current [] = flush current
  plan_from current (call ∷ calls) =
      let (pushed, next) = plan_step current call in pushed ++ plan_from next calls

unfoldable pub plan_batches : List PlannedCall → ℕ → List Batch
unfolding plan_from
plan_batches calls max_parallel = plan_from max_parallel [] calls
