-- ===== src/Background/State.antt =====
-- packages/background/src/manager.ts: the state of the manager, what it does to its surroundings, and the
-- changes of a task's record.
use qwen_harness.Prelude.{
  ℕ, ◌+◌, ◌-◌, Bool, true, false, not, ◌&&◌, ◌||◌, List, [], ◌∷◌, ◌++◌, Option, none, some, Text,
  str, length, take, leb, ltb, if◌then◌else◌,
}
use qwen_harness.Protocol.{Actor}
use qwen_harness.Policy.Authority.{Authority}
use qwen_harness.Background.{BackgroundCategory, Placement, ForegroundHint}
use qwen_harness.Background.Notifications.{NotificationQueue, empty_queue}
use qwen_harness.Background.Table.{
  TaskStatus, TaskRecord, InputRequest, RunnerExit, BackgroundTaskView, save,
}

abbrev pub foreground_concurrency : ℕ
foreground_concurrency = 4

abbrev pub output_warn_bytes : ℕ
output_warn_bytes = 10485760

abbrev pub output_hard_stop_bytes : ℕ
output_hard_stop_bytes = 5368709120

abbrev pub output_preview_bytes : ℕ
output_preview_bytes = 65536

abbrev pub input_watchdog_ms : ℕ
input_watchdog_ms = 30000

abbrev pub blocked_after_ms : ℕ
blocked_after_ms = 300000

pub data ManagerEffect : Type 0 where
  runner_started runner_cancelled : Text → ManagerEffect
  input_provided : Text → Text → ManagerEffect
  start_recorded : BackgroundTaskView → ManagerEffect
  completion_recorded : BackgroundTaskView → Bool → ManagerEffect
  resolved : ℕ → BackgroundTaskView → ManagerEffect

pub record BackgroundManager : Type 0 where
  pub limit : ℕ
  pub hard_stop_bytes : ℕ
  pub tasks : List TaskRecord
  pub queue : List Text
  pub notifications : NotificationQueue
  pub issued : ℕ
  pub effects : List ManagerEffect

pub record StartInput : Type 0 where
  pub category : BackgroundCategory
  pub owner : Actor
  pub placement : Option Placement
  pub hint : Option ForegroundHint
  pub tool_call_id : Option Text
  pub permission_context : Authority
  pub payload : Text
  pub approval_channel : Bool

pub data BackgroundError : Type 0 where
  unknown_task : BackgroundError
  not_awaiting_input : TaskStatus → BackgroundError

pub data Reply : Type 0 where
  done : BackgroundManager → Reply
  thrown : BackgroundError → Reply

-- `value ?? fallback`
abbrev pub or_default : Option ℕ → ℕ → ℕ
or_default none fallback = fallback
or_default (some value) fallback = value

-- The options for the slots and for the ceiling of the output.
abbrev pub new_manager : Option ℕ → Option ℕ → BackgroundManager
new_manager limit hard_stop = record {
  limit = or_default limit foreground_concurrency;
  hard_stop_bytes = or_default hard_stop output_hard_stop_bytes;
  tasks = [];
  queue = [];
  notifications = empty_queue;
  issued = 0;
  effects = [];
}

abbrev pub save_task : BackgroundManager → TaskRecord → BackgroundManager
save_task m t = record m { tasks = save t m.tasks }

abbrev pub emit : BackgroundManager → List ManagerEffect → BackgroundManager
emit m es = record m { effects = m.effects ++ es }

-- `task.control?.cancel()`
unfoldable pub cancel_runner : BackgroundManager → TaskRecord → BackgroundManager
cancel_runner m t = if t.control then emit m (runner_cancelled t.id ∷ []) else m

-- The text of a failure, of which the hard stop has one.
abbrev pub hard_stop_exit : RunnerExit
hard_stop_exit = record {
  ok = false;
  code = none;
  reason = some (str "output hard-stop limit exceeded");
}

abbrev pub cancelled_exit : RunnerExit
cancelled_exit = record { ok = false; code = none; reason = some (str "cancelled") }

abbrev pub watchdog_request : InputRequest
watchdog_request = record { prompt = str "input required (watchdog)"; secret = false }

abbrev pub is_success : TaskStatus → Bool
is_success TaskStatus.succeeded = true
is_success _ = false

abbrev pub status_name : TaskStatus → Text
status_name TaskStatus.queued = str "queued"
status_name TaskStatus.running = str "running"
status_name TaskStatus.awaiting_input = str "awaiting_input"
status_name TaskStatus.blocked = str "blocked"
status_name TaskStatus.succeeded = str "succeeded"
status_name TaskStatus.failed = str "failed"
status_name TaskStatus.cancelled = str "cancelled"

-- `task.outputBytes += chunk.length`, with the preview that grows as far as it has room.
unfoldable pub receive : TaskRecord → Text → TaskRecord
receive t chunk =
    let room = output_preview_bytes - length t.output_preview in
    let has_room = ltb (length t.output_preview) output_preview_bytes in
    record t {
      output_bytes = t.output_bytes + length chunk;
      output_preview = if has_room then t.output_preview ++ take room chunk else t.output_preview;
      output_truncated = if has_room then t.output_truncated || ltb room (length chunk) else true;
    }

-- The record with the awaited input asked for.
unfoldable pub awaiting : TaskRecord → InputRequest → ℕ → TaskRecord
awaiting t request now = record t {
  status = TaskStatus.awaiting_input;
  awaiting_since = some now;
  detected_wait_since = none;
  last_input_request = some request;
}

-- The record that `provideInput` leaves.
unfoldable pub resumed : TaskRecord → TaskRecord
resumed t = record t {
  status = TaskStatus.running;
  awaiting_since = none;
  detected_wait_since = none;
  last_input_request = none;
}

unfoldable pub suspended : TaskRecord → TaskRecord
suspended t = record t { status = TaskStatus.blocked }

unfoldable pub detected : TaskRecord → ℕ → TaskRecord
detected t now = record t { detected_wait_since = some now }

unfoldable pub awaited : TaskRecord → ℕ → TaskRecord
awaited t waiter = record t { waiters = t.waiters ++ waiter ∷ [] }

-- The record that `#settle` leaves.
unfoldable pub settled : TaskRecord → TaskStatus → RunnerExit → ℕ → TaskRecord
settled t status exit now = record t {
  status = status;
  exit = some exit;
  ended_at = some now;
  control = false;
  waiters = [];
}

-- `!task.outputWarned && task.outputBytes >= OUTPUT_WARN_BYTES`, once the chunk is counted.
unfoldable pub warns : TaskRecord → Text → Bool
unfolding receive
warns t chunk = not t.output_warned && leb output_warn_bytes (receive t chunk).output_bytes

unfoldable pub warned : TaskRecord → Text → TaskRecord
unfolding receive
warned t chunk = record (receive t chunk) { output_warned = true }

-- The record that is launched.
unfoldable pub launched : TaskRecord → ℕ → TaskRecord
launched t now = record t { status = TaskStatus.running; started_at = some now; control = true }
