-- ===== src/Background/Manager/Calls.antt =====
-- packages/background/src/manager.ts: the calls on the manager, those of the runner's callbacks among them,
-- in any order. A call that throws leaves the manager as it was.
use qwen_harness.Prelude.{ℕ, List, [], ◌∷◌, Text, if◌then◌else◌}
use qwen_harness.Background.Table.{InputRequest, RunnerExit, TaskRecord, is_queued}
use qwen_harness.Background.State.{BackgroundManager, StartInput, Reply, done, thrown}
use qwen_harness.Background.Manager.{
  start, provide_input, stop, await_task, on_output, enter_awaiting_input, on_input_wait_detected,
  on_exit,
}
use qwen_harness.Background.Watch.{check_watchdogs, with_task}

pub data Callback : Type 0 where
  output : (chunk : Text) → Callback
  input_requested : (request : InputRequest) → Callback
  input_wait_detected : Callback
  exited : (exit : RunnerExit) → Callback

pub data Call : Type 0 where
  starts : (input : StartInput) → Call
  provides : (id value : Text) → Call
  stops : (id : Text) → Call
  awaits : (id : Text) (waiter : ℕ) → Call
  checks : Call
  calls_back : (id : Text) (callback : Callback) → Call

abbrev pub after : BackgroundManager → Reply → BackgroundManager
after m (done n) = n
after m (thrown e) = m

module _ (next_id : Text → ℕ → Text) where
  abbrev pub call_back : BackgroundManager → TaskRecord → Callback → ℕ → BackgroundManager
  call_back m t (output chunk) now = on_output next_id m t chunk now
  call_back m t (input_requested request) now = enter_awaiting_input next_id m t request now
  call_back m t input_wait_detected now = on_input_wait_detected m t now
  call_back m t (exited exit) now = on_exit next_id m t exit now

  -- A task that is queued has not been launched, so its callbacks are nowhere.
  abbrev pub launched_back : BackgroundManager → TaskRecord → Callback → ℕ → BackgroundManager
  launched_back m t callback now = if is_queued t.status then m else call_back m t callback now

  unfoldable pub step : BackgroundManager → ℕ → Call → BackgroundManager
  step m now (starts input) = start next_id m input now
  step m now (provides id value) = after m (provide_input m id value)
  step m now (stops id) = after m (stop next_id m id now)
  step m now (awaits id waiter) = after m (await_task m id waiter)
  step m now checks = check_watchdogs next_id m now
  step m now (calls_back id callback) = with_task m id λ t. launched_back m t callback now

  unfoldable pub run : BackgroundManager → List (ℕ × Call) → BackgroundManager
  unfolding step
  run m [] = m
  run m ((now, c) ∷ cs) = run (step m now c) cs
