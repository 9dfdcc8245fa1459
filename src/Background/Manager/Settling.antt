-- ===== src/Background/Manager/Settling.antt =====
-- packages/background/src/manager.ts: a task ends once, and stays as it ended.
use qwen_harness.Prelude.{
  ℕ, ◌+◌, ◌≡◌, refl, true, false, not, ◌||◌, List, [], ◌∷◌, none, some, Text, str, text_eq→eq,
  arith, ltb, if_both, Option,
}
use qwen_harness.Background.Notifications.{NotificationKind}
use qwen_harness.Background.Table.{
  TaskStatus, TaskRecord, RunnerExit, view, is_terminal_status, is_queued, is_foreground, count_if,
  find, save, foreground_running, find-save, find-save_same,
}
use qwen_harness.Background.State.{
  BackgroundManager, StartInput, ManagerEffect, start_recorded, save_task, emit, launched, settled,
  new_manager,
}
use qwen_harness.Background.Manager.{notify, launch, finish, settle, new_task, start}
use qwen_harness.Background.Manager.Calls.{Call, run}
use qwen_harness.Background.Manager.Quiet.{IsQuiet, IsCurrent, is_completion}
use qwen_harness.Background.Manager.Keeping.{IsKept}
use qwen_harness.Background.Manager.Steps.{run-keeps}
use qwen_harness.Background.Manager.Slots.{IsSteady, ended_not_queued}
use qwen_harness.Background.Manager.Waiting.{IsSteady-IsKept, new_manager-IsSteady}
use qwen_harness.Background.Manager.Admission.{settle-keeps}
use qwen_harness.Background.Manager.Completions.{
  completions, ended, IsExact, save-IsExact, emit-IsExact, notify-IsExact, settle-IsExact,
  start-IsExact, new_manager-IsExact,
}

module _ (next_id : Text → ℕ → Text) where
  -- What every call keeps, if it is kept along with the slots; a new task has an id of its own.
  module _ (next_id_inj : (j k : ℕ) → next_id (str "bgt") j ≡ next_id (str "bgt") k → j ≡ k) where
    with_slots-IsKept :
        (P : BackgroundManager → Type 0)
        → ((m : BackgroundManager) (t u : TaskRecord)
            → IsCurrent m t
            → IsQuiet t u
            → P m
            → P (save_task m u))
        → ((m : BackgroundManager) (t : TaskRecord) (kind : NotificationKind) (message : Text)
              (now : ℕ)
            → P m
            → P (notify next_id m t kind message now))
        → ((m : BackgroundManager) (e : ManagerEffect)
            → is_completion e ≡ false
            → P m
            → P (emit m (e ∷ [])))
        → ((m : BackgroundManager) (t : TaskRecord) (status : TaskStatus) (exit : RunnerExit)
              (now : ℕ)
            → is_terminal_status status ≡ true
            → IsCurrent m t
            → P m
            → P (settle next_id m t status exit now))
        → ((m : BackgroundManager) (input : StartInput) (now : ℕ)
            → find (new_task next_id m input now).id m.tasks ≡ none
            → P m
            → P (start next_id m input now))
        → IsKept next_id (λ m. IsSteady next_id m × P m)
    unfolding new_task
    with_slots-IsKept P save note effect close begin =
        let s = IsSteady-IsKept next_id next_id_inj in
        record {
          of_save = λ m t u c q p. (s.of_save m t u c q p.0, save m t u c q p.1);
          of_notify = λ m t kind message now p.
              (s.of_notify m t kind message now p.0, note m t kind message now p.1);
          of_emit = λ m e f p. (s.of_emit m e f p.0, effect m e f p.1);
          of_settle = λ m t status exit now e c p.
              (s.of_settle m t status exit now e c p.0, close m t status exit now e c p.1);
          of_start = λ m input now p. (
            s.of_start m input now p.0,
            begin m input now (p.0.opened.unissued m.issued (omega arith)) p.1,
          );
        }

    -- With ids that differ, after any calls on a new manager the sink was told once of the end
    -- of each task that has ended, and never of the end of another.
    pub completions_once :
        (limit hard_stop : Option ℕ) (cs : List (ℕ × Call)) (id : Text)
        → let m = run next_id (new_manager limit hard_stop) cs in
          completions id m.effects ≡ count_if (ended (find id m.tasks))
    completions_once limit hard_stop cs =
        (run-keeps next_id
          (with_slots-IsKept (IsExact next_id) (save-IsExact next_id) (notify-IsExact next_id)
            (emit-IsExact next_id) (settle-IsExact next_id) (start-IsExact next_id))
          (new_manager limit hard_stop) cs
          (
            new_manager-IsSteady next_id next_id_inj limit hard_stop,
            new_manager-IsExact next_id limit hard_stop,
          )).1

    module _ (id : Text) (t : TaskRecord) (over : is_terminal_status t.status ≡ true) where
      abbrev Stays : BackgroundManager → Type 0
      Stays m = find id m.tasks ≡ some t

      save-Stays :
          (m : BackgroundManager) (u v : TaskRecord)
          → IsCurrent m u
          → v.id ≡ u.id
          → is_terminal_status u.status ≡ false
          → Stays m
          → Stays (save_task m v)
      save-Stays m u v c i e h =
          ground (arith, find-save id v m.tasks, text_eq→eq id v.id, c, i, e, h, over)

      launch-Stays :
          (m : BackgroundManager) (u : TaskRecord) (now : ℕ)
          → IsCurrent m u
          → is_queued u.status ≡ true
          → Stays m
          → Stays (launch m u now)
      unfolding launch launched
      launch-Stays m u now c q h =
          save-Stays m u (launched u now) c refl
            (ground (arith, ended_not_queued next_id u.status, q)) h

      finish-Stays :
          (m : BackgroundManager) (u : TaskRecord) (status : TaskStatus) (exit : RunnerExit)
          (now : ℕ)
          → IsCurrent m u
          → is_terminal_status u.status ≡ false
          → Stays m
          → Stays (finish next_id m u status exit now)
      unfolding finish notify settled
      finish-Stays m u status exit now c e h = save-Stays m u (settled u status exit now) c refl e h

      start-Stays :
          (m : BackgroundManager) (input : StartInput) (now : ℕ)
          → find (new_task next_id m input now).id m.tasks ≡ none
          → Stays m
          → Stays (start next_id m input now)
      unfolding start new_task
      start-Stays m input now n h =
          if_both Stays
            (not (is_foreground u.placement) || ltb (foreground_running recorded.tasks) m.limit)
            (launch-Stays recorded u now (find-save_same u m.tasks) refl stays) stays
        where
          u : TaskRecord
          u = new_task next_id m input now

          recorded : BackgroundManager
          recorded = record (emit (save_task m u) (start_recorded (view u) ∷ [])) {
            issued = m.issued + 1;
          }

          stays : Stays recorded
          stays = ground (arith, find-save id u m.tasks, n, h, text_eq→eq id u.id)

      notify-Stays :
          (m : BackgroundManager) (u : TaskRecord) (kind : NotificationKind) (message : Text)
          (now : ℕ)
          → Stays m
          → Stays (notify next_id m u kind message now)
      unfolding notify
      notify-Stays m u kind message now h = h

      -- With ids that differ, a task that has ended after some calls on a new manager has the
      -- same record after any further calls.
      pub run-keeps_ended :
          (limit hard_stop : Option ℕ) (before after : List (ℕ × Call))
          → let m = run next_id (new_manager limit hard_stop) before in
            find id m.tasks ≡ some t → find id (run next_id m after).tasks ≡ some t
      run-keeps_ended limit hard_stop before after h =
          (run-keeps next_id
            (with_slots-IsKept Stays (λ m u v c q. save-Stays m u v c q.same_id q.not_ended)
              notify-Stays (λ m e f h. h)
              (λ m u status exit now e c h.
                settle-keeps next_id Stays launch-Stays (λ m ids h. h) m u status exit now
                  (λ f. finish-Stays m u status exit now c f h) h)
              start-Stays)
            (run next_id (new_manager limit hard_stop) before) after
            (
              run-keeps next_id (IsSteady-IsKept next_id next_id_inj) (new_manager limit hard_stop)
                  before (new_manager-IsSteady next_id next_id_inj limit hard_stop),
              h,
            )).1
