-- ===== src/Tools/Examples.antt =====
-- Runs of the scheduler of tool calls at concrete inputs.
use qwen_harness.Prelude.{
  String, Bool, true, false, List, [], ◌∷◌, ◌≡◌, refl, Text, str, text_eq, All, map,
}
use qwen_harness.Tools.Scheduler.{
  PlannedCall, Batch, BatchKind, conflicts, is_safe_parallel, plan_batches,
}
use qwen_harness.Tools.Scheduler.Batches.{
  IsSoundBatch, all_calls, all_calls-plan_batches, plan_batches-IsSoundBatch,
}

abbrev call_with : String → Bool → List Text → List Text → PlannedCall
call_with id read_only reads writes = record {
  call_id = str id;
  tool_name = str "tool";
  annotations = record {
    read_only = read_only;
    destructive = false;
    idempotent = true;
    open_world = false;
  };
  footprint = record { reads = reads; writes = writes; unbounded = false };
}

abbrev read_a : PlannedCall
read_a = call_with "r1" true (str "/w/a" ∷ []) []

abbrev read_b : PlannedCall
read_b = call_with "r2" true (str "/w/b" ∷ []) []

abbrev write_a : PlannedCall
write_a = call_with "w1" false [] (str "/w/a" ∷ [])

abbrev model_output : List PlannedCall
model_output = read_a ∷ read_b ∷ write_a ∷ read_a ∷ []

-- Two reads share a batch, the write stands alone, and the read after it comes after it.
plan_batches_tests :
    map (λ (b : Batch). b.kind) (plan_batches model_output 8)
    ≡ BatchKind.parallel ∷ BatchKind.serial ∷ BatchKind.parallel ∷ []
unfolding plan_batches is_safe_parallel conflicts str text_eq
plan_batches_tests = refl

-- At a limit of one, every call has a batch of its own.
plan_batches_one :
    map (λ (b : Batch). b.kind) (plan_batches model_output 1)
    ≡ BatchKind.parallel ∷ BatchKind.parallel ∷ BatchKind.serial ∷ BatchKind.parallel ∷ []
unfolding plan_batches is_safe_parallel conflicts str text_eq
plan_batches_one = refl

conflicts_tests : conflicts read_a write_a ≡ true
unfolding conflicts str text_eq
conflicts_tests = refl

all_calls-plan_batches_example : all_calls (plan_batches model_output 8) ≡ model_output
all_calls-plan_batches_example = all_calls-plan_batches model_output 8

plan_batches-IsSoundBatch_example : All (IsSoundBatch 8) (plan_batches model_output 8)
plan_batches-IsSoundBatch_example = plan_batches-IsSoundBatch model_output 8
