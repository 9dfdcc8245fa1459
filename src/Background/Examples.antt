-- ===== src/Background/Examples.antt =====
-- Runs of the background manager and of its notifications, and their theorems at them.
use qwen_harness.Prelude.{
  ℕ, ◌+◌, ◌≤◌, ◌≡◌, refl, true, false, List, [], ◌∷◌, ◌++◌, none, some, Text, str, keep, map,
  includes, arith, text_eq,
}
use qwen_harness.Protocol.{PermissionProfile, IsolationMode, ActorKind}
use qwen_harness.Policy.Authority.{Authority}
use qwen_harness.Background.{BackgroundCategory, Placement}
use qwen_harness.Background.Notifications.{
  Notification, NotificationKind, NotificationQueue, one, four, level_eq, level_of, empty_queue,
  enqueue, deliver, drain, top_level, top_level_above, starvation_threshold, first_waiting,
  set_level, deliver_from, shift,
}
use qwen_harness.Background.Notifications.Delivery.{HasLevels, enqueue-HasLevels, keep-drain}
use qwen_harness.Background.Notifications.Starvation.{Passes, stop, pass, Passes-bounded}
use qwen_harness.Background.Table.{
  TaskRecord, TaskStatus, RunnerExit, save, find, foreground_running, count_if,
}
use qwen_harness.Background.State.{
  BackgroundManager, StartInput, new_manager, settled, launched, awaiting,
}
use qwen_harness.Background.Manager.{new_task, start, on_exit, on_input_wait_detected}
use qwen_harness.Background.Watch.{check_watchdogs}
use qwen_harness.Background.Manager.Calls.{
  Call, starts, calls_back, exited, input_wait_detected, stops, run,
}
use qwen_harness.Background.Manager.Waiting.{run-within_limit, run-full_while_queued}
use qwen_harness.Background.Manager.Completions.{completions, ended}
use qwen_harness.Background.Manager.Settling.{completions_once, run-keeps_ended}
use qwen_harness.Background.Manager.Output.{IsPreviewOf, receive_all, receive_all-IsPreviewOf}
use qwen_harness.Background.Manager.Watchdogs.Rounds.{Round, check_watchdogs-Round}

abbrev next_id : Text → ℕ → Text
next_id prefix k = k ∷ prefix

next_id_inj : (j k : ℕ) → next_id (str "bgt") j ≡ next_id (str "bgt") k → j ≡ k
next_id_inj j k h = cc

abbrev authority : Authority
authority = record {
  profile = PermissionProfile.ask;
  isolation = IsolationMode.workspace_write;
  network_allowed = false;
  workspace_roots = [];
  rules = [];
  grants = [];
  max_child_depth = 1;
}

abbrev shell_input : StartInput
shell_input = record {
  category = BackgroundCategory.local_shell;
  owner = record { kind = ActorKind.model; id = str "m" };
  placement = some Placement.foreground;
  hint = none;
  tool_call_id = none;
  permission_context = authority;
  payload = [];
  approval_channel = false;
}

abbrev two_starts : List (ℕ × Call)
two_starts = (1, starts shell_input) ∷ (2, starts shell_input) ∷ []

-- One slot, which the first task holds while the second is queued.
run-within_limit_example :
    let m = run next_id (new_manager (some 1) none) two_starts in foreground_running m.tasks ≤ 1
run-within_limit_example = run-within_limit next_id next_id_inj (some 1) none two_starts

abbrev second_task : TaskRecord
second_task =
    new_task next_id (run next_id (new_manager (some 1) none) ((1, starts shell_input) ∷ []))
      shell_input 2

abbrev started_two : BackgroundManager
started_two = run next_id (new_manager (some 1) none) two_starts

run-full_while_queued_example :
    (includes started_two.queue (1 ∷ str "bgt") ≡ true) × (foreground_running started_two.tasks ≡ 1)
unfolding run start foreground_running save find text_eq str new_task
run-full_while_queued_example =
    run-full_while_queued next_id next_id_inj (some 1) none two_starts (1 ∷ str "bgt") second_task
      refl refl

abbrev failing_exit : RunnerExit
failing_exit = record { ok = false; code = some 2; reason = none }

-- The first task exits twice, and its slot goes to the second.
abbrev exits : List (ℕ × Call)
exits =
    (3, calls_back (0 ∷ str "bgt") (exited failing_exit))
    ∷ (4, calls_back (0 ∷ str "bgt") (exited failing_exit))
    ∷ []

abbrev history : List (ℕ × Call)
history = two_starts ++ exits

completions_once_example :
    let m = run next_id (new_manager (some 1) none) history in
    completions (0 ∷ str "bgt") m.effects ≡ count_if (ended (find (0 ∷ str "bgt") m.tasks))
completions_once_example =
    completions_once next_id next_id_inj (some 1) none history (0 ∷ str "bgt")

abbrev failed_task : TaskRecord
failed_task =
    settled (launched (new_task next_id (new_manager (some 1) none) shell_input 1) 1)
      TaskStatus.failed failing_exit 3

run-keeps_ended_example :
    find
      (0 ∷ str "bgt")
      (run next_id
        (run next_id (new_manager (some 1) none) history)
        ((5, stops (0 ∷ str "bgt")) ∷ [])).tasks
    ≡ some failed_task
unfolding run start foreground_running save find text_eq str new_task settled launched on_exit
run-keeps_ended_example =
    run-keeps_ended next_id next_id_inj (0 ∷ str "bgt") failed_task refl (some 1) none history
      ((5, stops (0 ∷ str "bgt")) ∷ []) refl

receive_all-IsPreviewOf_example :
    IsPreviewOf (str "abc") (receive_all second_task (str "a" ∷ str "bc" ∷ []))
unfolding str new_task
receive_all-IsPreviewOf_example =
    receive_all-IsPreviewOf [] second_task (str "a" ∷ str "bc" ∷ [])
      (record { counted = refl; kept = refl; marked = λ h. absurd (omega (arith, h)) })

-- The runner reports a wait of the only task, and nobody answers it.
abbrev seeming_to_wait : BackgroundManager
seeming_to_wait =
    run next_id (new_manager (some 1) none)
      ((1, starts shell_input) ∷ (2, calls_back (0 ∷ str "bgt") input_wait_detected) ∷ [])

abbrev waiting_task : TaskRecord
waiting_task = record (launched (new_task next_id (new_manager (some 1) none) shell_input 1) 1) {
  detected_wait_since = some 2;
}

-- 30 seconds after the wait began, the round asks for the input.
check_watchdogs-Round_example :
    (u : TaskRecord) × (find (0 ∷ str "bgt") (check_watchdogs next_id seeming_to_wait 30002).tasks
      ≡ some u)
    × Round 30002 waiting_task u
unfolding run start foreground_running save find text_eq str new_task launched
    on_input_wait_detected
check_watchdogs-Round_example =
    check_watchdogs-Round next_id seeming_to_wait (0 ∷ str "bgt") 30002 waiting_task refl

-- A millisecond earlier it does nothing.
rounds_of_waiting :
    (map (λ t. t.status) (check_watchdogs next_id seeming_to_wait 30001).tasks
      ≡ TaskStatus.running ∷ [])
    × (map (λ t. t.status) (check_watchdogs next_id seeming_to_wait 30002).tasks
        ≡ TaskStatus.awaiting_input ∷ [])
unfolding run start save find text_eq str new_task launched on_input_wait_detected check_watchdogs
    awaiting foreground_running
rounds_of_waiting = (refl, refl)

abbrev note : ℕ → NotificationKind → Notification
note k kind = record {
  id = k ∷ [];
  kind = kind;
  level = level_of kind;
  subject_id = [];
  message = [];
  created_at = k;
}

abbrev mixed : NotificationQueue
mixed =
    enqueue
      (enqueue (enqueue empty_queue (note 1 NotificationKind.status))
        (note 2 NotificationKind.approval))
      (note 3 NotificationKind.status)

mixed-HasLevels : HasLevels mixed
mixed-HasLevels =
    enqueue-HasLevels
      (enqueue (enqueue empty_queue (note 1 NotificationKind.status))
        (note 2 NotificationKind.approval))
      (note 3 NotificationKind.status)
      (enqueue-HasLevels (enqueue empty_queue (note 1 NotificationKind.status))
        (note 2 NotificationKind.approval)
        (enqueue-HasLevels empty_queue (note 1 NotificationKind.status) λ l. tt))

-- The approval overtakes the first status, and the two of that level keep their order.
keep-drain_example :
    keep (λ n. level_eq n.level four) (drain mixed)
    ≡ note 1 NotificationKind.status ∷ note 3 NotificationKind.status ∷ []
unfolding enqueue
keep-drain_example = keep-drain mixed four mixed-HasLevels

abbrev after_approval : NotificationQueue
after_approval = record { by_level = set_level one [] mixed.by_level; consecutive_high = 1 }

one_pass : Passes mixed 1 after_approval
unfolding enqueue deliver top_level top_level_above first_waiting deliver_from shift
one_pass = pass [] (note 2 NotificationKind.approval) one four refl refl refl refl stop

Passes-bounded_example : 1 + mixed.consecutive_high ≤ starvation_threshold
unfolding enqueue
Passes-bounded_example =
    Passes-bounded mixed after_approval 1 mixed-HasLevels (omega arith) one_pass
