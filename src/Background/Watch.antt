-- ===== src/Background/Watch.antt =====
-- packages/background/src/manager.ts: the watchdogs, checkWatchdogs.
use qwen_harness.Prelude.{
  ℕ, ◌+◌, Bool, false, not, ◌&&◌, List, [], ◌∷◌, ◌++◌, Option, none, some, Text, str, map, leb,
  if◌then◌else◌,
}
use qwen_harness.Background.Notifications.{NotificationKind}
use qwen_harness.Background.Table.{TaskRecord, is_running, is_awaiting, find}
use qwen_harness.Background.State.{
  input_watchdog_ms, blocked_after_ms, BackgroundManager, save_task, watchdog_request, suspended,
}
use qwen_harness.Background.Manager.{notify, enter_awaiting_input}

-- What `act` does to the task of this id, if there is one.
abbrev pub with_task :
    BackgroundManager → Text → (TaskRecord → BackgroundManager) → BackgroundManager
with_task m id act = elim (find id m.tasks) [ none ↦ m | some t ↦ act t ]

-- `since !== null && now - since >= span`
abbrev pub has_waited : Option ℕ → ℕ → ℕ → Bool
has_waited none span now = false
has_waited (some since) span now = leb (since + span) now

module _ (next_id : Text → ℕ → Text) where
  -- The first test of the round for a task.
  unfoldable pub promote : BackgroundManager → TaskRecord → ℕ → BackgroundManager
  unfolding enter_awaiting_input
  promote m t now =
      if is_running t.status && has_waited t.detected_wait_since input_watchdog_ms now
      then enter_awaiting_input next_id m t watchdog_request now
      else m

  -- The second.
  unfoldable pub block : BackgroundManager → TaskRecord → ℕ → BackgroundManager
  unfolding notify suspended
  block m t now =
      if is_awaiting t.status
        && (not t.approval_channel && has_waited t.awaiting_since blocked_after_ms now)
      then notify next_id (save_task m (suspended t)) (suspended t) NotificationKind.status
          (str "task " ++ t.id ++ str " blocked: no input channel") now
      else m

  unfoldable pub watch : BackgroundManager → Text → ℕ → BackgroundManager
  unfolding promote block
  watch m id now =
      let promoted = with_task m id λ t. promote m t now in
      with_task promoted id λ t. block promoted t now

  unfoldable pub watch_all : BackgroundManager → List Text → ℕ → BackgroundManager
  unfolding watch
  watch_all m [] now = m
  watch_all m (id ∷ ids) now = watch_all (watch m id now) ids now

  unfoldable pub check_watchdogs : BackgroundManager → ℕ → BackgroundManager
  unfolding watch_all
  check_watchdogs m now = watch_all m (map (λ t. t.id) m.tasks) now
