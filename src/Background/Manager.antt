-- ===== src/Background/Manager.antt =====
-- packages/background/src/manager.ts: the operations of the manager. The source of ids is a parameter, the
-- clock is an argument of each call, and what the manager does to the runner, the sink and the promises is
-- the list of its effects. A callback of the runner is a call of its own.
pub mod Calls
pub mod Quiet
pub mod Keeping
pub mod Steps
pub mod Slots
pub mod Waiting
pub mod Admission
pub mod Completions
pub mod Settling
pub mod Output
pub mod Watchdogs
use qwen_harness.Prelude.{
  ℕ, ◌+◌, ◌-◌, Bool, true, false, not, ◌&&◌, ◌||◌, List, [], ◌∷◌, ◌++◌, Option, none, some, Text,
  str, length, take, map, leb, ltb, is_none, if◌then◌else◌,
}
use qwen_harness.Protocol.{Actor}
use qwen_harness.Policy.Authority.{Authority}
use qwen_harness.Background.{BackgroundCategory, Placement, ForegroundHint, classify_foreground}
use qwen_harness.Background.Notifications.{
  Notification, NotificationKind, NotificationQueue, level_of, empty_queue, enqueue,
}
use qwen_harness.Background.Table.{
  TaskStatus, TaskRecord, InputRequest, RunnerExit, BackgroundTaskView, is_terminal_status,
  is_queued, is_running, is_awaiting, is_blocked, is_foreground, view, find, save,
  foreground_running,
}
use qwen_harness.Background.State.{
  BackgroundManager, StartInput, Reply, save_task, emit, cancel_runner, hard_stop_exit,
  cancelled_exit, is_success, status_name, receive, awaiting, resumed, detected, awaited, settled,
  warns, warned, launched, runner_started, input_provided, start_recorded, completion_recorded,
  resolved, unknown_task, not_awaiting_input, done, thrown,
}

unfoldable pub launch : BackgroundManager → TaskRecord → ℕ → BackgroundManager
unfolding launched
launch m t now = emit (save_task m (launched t now)) (runner_started t.id ∷ [])

-- `if (next && next.status === 'queued') this.#launch(next)`
unfoldable pub launch_queued : BackgroundManager → Text → ℕ → BackgroundManager
unfolding launch
launch_queued m id now = elim (find id m.tasks) [
  | none ↦ m
  | some t ↦ if is_queued t.status then launch m t now else m
]

-- The loop of `#admitNext`, on the ids that are left in the queue.
unfoldable pub admit_from : BackgroundManager → List Text → ℕ → BackgroundManager
unfolding launch_queued
admit_from m [] now = record m { queue = [] }
admit_from m (id ∷ rest) now =
    let next = admit_from (launch_queued m id now) rest now in
    if ltb (foreground_running m.tasks) m.limit then next else record m { queue = id ∷ rest }

unfoldable pub admit_next : BackgroundManager → ℕ → BackgroundManager
unfolding admit_from
admit_next m now = admit_from m m.queue now

unfoldable pub on_input_wait_detected : BackgroundManager → TaskRecord → ℕ → BackgroundManager
unfolding detected
on_input_wait_detected m t now =
    if is_running t.status && is_none t.detected_wait_since then save_task m (detected t now) else m

-- The record as `take_output` leaves it.
unfoldable pub taken_record : TaskRecord → Text → TaskRecord
unfolding receive warns warned
taken_record t chunk = if warns t chunk then warned t chunk else receive t chunk

unfoldable pub provide_input : BackgroundManager → Text → Text → Reply
unfolding resumed
provide_input m id value = elim (find id m.tasks) [
  | none ↦ thrown unknown_task
  | some t ↦
      let next = save_task m (resumed t) in
      if is_awaiting t.status || is_blocked t.status
      then done (if t.control then emit next (input_provided id value ∷ []) else next)
      else thrown (not_awaiting_input t.status)
]

-- The promise that waits is the number `waiter`.
unfoldable pub await_task : BackgroundManager → Text → ℕ → Reply
unfolding awaited
await_task m id waiter = elim (find id m.tasks) [
  | none ↦ thrown unknown_task
  | some t ↦ done (
      if is_terminal_status t.status
      then emit m (resolved waiter (view t) ∷ [])
      else save_task m (awaited t waiter))
]

module _ (next_id : Text → ℕ → Text) where
  unfoldable pub notify :
      BackgroundManager → TaskRecord → NotificationKind → Text → ℕ → BackgroundManager
  notify m t kind message now = record m {
    notifications = enqueue m.notifications (record {
      id = next_id (str "ntf") m.issued;
      kind = kind;
      level = level_of kind;
      subject_id = t.id;
      message = message;
      created_at = now;
    });
    issued = m.issued + 1;
  }

  -- `#settle` up to the queue, for a task that is not terminal.
  unfoldable pub finish :
      BackgroundManager → TaskRecord → TaskStatus → RunnerExit → ℕ → BackgroundManager
  unfolding notify settled
  finish m t status exit now =
      let ended = settled t status exit now in
      let kind =
        if is_success status
        then NotificationKind.background_completion
        else NotificationKind.task_failure in
      emit
        (notify (save_task m ended) ended kind
          (str "task " ++ t.id ++ str " " ++ status_name status) now)
        (completion_recorded (view ended) (is_success status)
          ∷ map (λ w. resolved w (view ended)) t.waiters)

  unfoldable pub settle :
      BackgroundManager → TaskRecord → TaskStatus → RunnerExit → ℕ → BackgroundManager
  unfolding finish admit_next
  settle m t status exit now =
      let ended = finish m t status exit now in
      let admitted = admit_next ended now in
      if is_terminal_status t.status
      then m
      else if is_foreground t.placement
      then admitted
      else ended

  unfoldable pub enter_awaiting_input :
      BackgroundManager → TaskRecord → InputRequest → ℕ → BackgroundManager
  unfolding notify awaiting
  enter_awaiting_input m t request now =
      if is_terminal_status t.status
      then m
      else notify (save_task m (awaiting t request now)) (awaiting t request now)
          NotificationKind.input_request
          (str "task " ++ t.id ++ str " requests input: " ++ request.prompt) now

  -- The count, the preview and the warning of `#onOutput`.
  unfoldable pub take_output : BackgroundManager → TaskRecord → Text → ℕ → BackgroundManager
  unfolding notify receive warns warned
  take_output m t chunk now =
      if warns t chunk
      then notify (save_task m (warned t chunk)) (warned t chunk) NotificationKind.status
          (str "task " ++ t.id ++ str " output exceeded 10485760 bytes") now
      else save_task m (receive t chunk)

  unfoldable pub on_output : BackgroundManager → TaskRecord → Text → ℕ → BackgroundManager
  unfolding take_output taken_record cancel_runner settle
  on_output m t chunk now =
      let taken = take_output m t chunk now in
      let t' = taken_record t chunk in
      let stopped = settle (cancel_runner taken t') t' TaskStatus.failed hard_stop_exit now in
      if is_terminal_status t.status
      then m
      else if leb m.hard_stop_bytes t'.output_bytes
      then stopped
      else taken

  unfoldable pub on_exit : BackgroundManager → TaskRecord → RunnerExit → ℕ → BackgroundManager
  unfolding settle
  on_exit m t exit now =
      let status = if exit.ok then TaskStatus.succeeded else TaskStatus.failed in
      settle m t status exit now

  -- The record that `start` makes.
  unfoldable pub new_task : BackgroundManager → StartInput → ℕ → TaskRecord
  unfolding classify_foreground
  new_task m input now = record {
    id = next_id (str "bgt") m.issued;
    category = input.category;
    placement = classify_foreground input.placement input.hint;
    owner = input.owner;
    tool_call_id = input.tool_call_id;
    permission_context = input.permission_context;
    payload = input.payload;
    approval_channel = input.approval_channel;
    status = TaskStatus.queued;
    control = false;
    output_bytes = 0;
    output_preview = [];
    output_truncated = false;
    output_warned = false;
    last_input_request = none;
    awaiting_since = none;
    detected_wait_since = none;
    created_at = now;
    started_at = none;
    ended_at = none;
    exit = none;
    waiters = [];
  }

  unfoldable pub start : BackgroundManager → StartInput → ℕ → BackgroundManager
  unfolding new_task launch
  start m input now =
      let t = new_task m input now in
      let recorded = record (emit (save_task m t) (start_recorded (view t) ∷ [])) {
        issued = m.issued + 1;
      } in
      if not (is_foreground t.placement) || ltb (foreground_running recorded.tasks) recorded.limit
      then launch recorded t now
      else record recorded { queue = recorded.queue ++ t.id ∷ [] }

  unfoldable pub stop : BackgroundManager → Text → ℕ → Reply
  unfolding cancel_runner settle
  stop m id now = elim (find id m.tasks) [
    | none ↦ thrown unknown_task
    | some t ↦
        let stopped = settle (cancel_runner m t) t TaskStatus.cancelled cancelled_exit now in
        done (if is_terminal_status t.status then m else stopped)
  ]
