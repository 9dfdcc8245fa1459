-- ===== src/Background/Manager/Completions.antt =====
-- packages/background/src/manager.ts: how often the sink is told of the end of a task.
use qwen_harness.Prelude.{
  ℕ, ◌+◌, ◌≡◌, refl, Bool, true, false, not, ◌||◌, List, [], ◌∷◌, ◌++◌, Option, none, some, Text,
  map, text_eq, text_eq→eq, arith, ltb, if_both,
}
use qwen_harness.Background.Notifications.{NotificationKind}
use qwen_harness.Background.Table.{
  TaskStatus, TaskRecord, RunnerExit, BackgroundTaskView, view, is_terminal_status, is_queued,
  is_foreground, count_if, find, save, foreground_running, find-save, find-save_same,
}
use qwen_harness.Background.State.{
  BackgroundManager, StartInput, ManagerEffect, completion_recorded, runner_started, resolved,
  start_recorded, save_task, emit, launched, settled, runner_cancelled, input_provided, is_success,
  new_manager,
}
use qwen_harness.Background.Manager.{notify, launch, finish, settle, new_task, start}
use qwen_harness.Background.Manager.Quiet.{IsQuiet, IsCurrent, is_completion}
use qwen_harness.Background.Manager.Admission.{settle-keeps}

abbrev is_completion_of : Text → ManagerEffect → Bool
is_completion_of id (completion_recorded v ok) = text_eq id v.id
is_completion_of id _ = false

-- How often the sink was told that the task had ended.
pub completions : Text → List ManagerEffect → ℕ
completions id [] = 0
completions id (e ∷ es) = count_if (is_completion_of id e) + completions id es

abbrev pub ended : Option TaskRecord → Bool
ended none = false
ended (some t) = is_terminal_status t.status

completions-append :
    (id : Text) (es fs : List ManagerEffect)
    → completions id (es ++ fs) ≡ completions id es + completions id fs
unfolding completions
completions-append id [] fs = omega arith
completions-append id (e ∷ es) fs = omega (arith, completions-append id es fs)

completions-resolved :
    (id : Text) (v : BackgroundTaskView) (ws : List ℕ)
    → completions id (map (λ w. resolved w v) ws) ≡ 0
unfolding completions
completions-resolved id v [] = refl
completions-resolved id v (w ∷ ws) = omega (arith, completions-resolved id v ws)

module _ (next_id : Text → ℕ → Text) where
  abbrev pub IsExact : BackgroundManager → Type 0
  IsExact m = (id : Text) → completions id m.effects ≡ count_if (ended (find id m.tasks))

  save-IsExact_emitted :
      (m : BackgroundManager) (u : TaskRecord) (es : List ManagerEffect)
      → ((id : Text)
          → completions id es + count_if (ended (find id m.tasks))
            ≡ count_if (ended (find id (save u m.tasks))))
      → IsExact m
      → IsExact (emit (save_task m u) es)
  save-IsExact_emitted m u es f x id = omega (arith, completions-append id m.effects es, x id, f id)

  launch-IsExact :
      (m : BackgroundManager) (t : TaskRecord) (now : ℕ)
      → IsCurrent m t
      → is_queued t.status ≡ true
      → IsExact m
      → IsExact (launch m t now)
  unfolding launch launched completions
  launch-IsExact m t now c q x =
      save-IsExact_emitted m (launched t now) _
        (λ id. ground (arith, find-save id (launched t now) m.tasks, c, q, text_eq→eq id t.id)) x

  finish-IsExact :
      (m : BackgroundManager) (t : TaskRecord) (status : TaskStatus) (exit : RunnerExit) (now : ℕ)
      → is_terminal_status status ≡ true
      → IsCurrent m t
      → is_terminal_status t.status ≡ false
      → IsExact m
      → IsExact (finish next_id m t status exit now)
  unfolding finish notify settled completions
  finish-IsExact m t status exit now e c f x =
      let u = settled t status exit now in
      save-IsExact_emitted m u
        (completion_recorded (view u) (is_success status)
          ∷ map (λ w. resolved w (view u)) t.waiters)
        (λ id. ground (
          arith,
          find-save id u m.tasks,
          completions-resolved id (view u) t.waiters,
          c,
          e,
          f,
          text_eq→eq id t.id,
        ))
        x

  pub save-IsExact :
      (m : BackgroundManager) (t u : TaskRecord)
      → IsCurrent m t
      → IsQuiet t u
      → IsExact m
      → IsExact (save_task m u)
  save-IsExact m t u c q x id = ground (
    arith,
    x id,
    find-save id u m.tasks,
    c,
    q.same_id,
    q.not_ended,
    q.still_not_ended,
    text_eq→eq id u.id,
  )

  pub emit-IsExact :
      (m : BackgroundManager) (e : ManagerEffect)
      → is_completion e ≡ false
      → IsExact m
      → IsExact (emit m (e ∷ []))
  unfolding completions
  emit-IsExact m e f x id =
      ground (arith, x id, completions-append id m.effects (e ∷ []), not_completion id e f)
    where
      not_completion :
          (id : Text) (e : ManagerEffect) → is_completion e ≡ false → is_completion_of id e ≡ false
      not_completion id (completion_recorded v ok) h = cc
      not_completion id (runner_started i) h = refl
      not_completion id (runner_cancelled i) h = refl
      not_completion id (input_provided i v) h = refl
      not_completion id (start_recorded v) h = refl
      not_completion id (resolved w v) h = refl

  pub notify-IsExact :
      (m : BackgroundManager) (t : TaskRecord) (kind : NotificationKind) (message : Text) (now : ℕ)
      → IsExact m
      → IsExact (notify next_id m t kind message now)
  unfolding notify
  notify-IsExact m t kind message now x = x

  pub settle-IsExact :
      (m : BackgroundManager) (t : TaskRecord) (status : TaskStatus) (exit : RunnerExit) (now : ℕ)
      → is_terminal_status status ≡ true
      → IsCurrent m t
      → IsExact m
      → IsExact (settle next_id m t status exit now)
  settle-IsExact m t status exit now e c x =
      settle-keeps next_id IsExact launch-IsExact (λ m ids x. x) m t status exit now
        (λ f. finish-IsExact m t status exit now e c f x) x

  pub start-IsExact :
      (m : BackgroundManager) (input : StartInput) (now : ℕ)
      → find (new_task next_id m input now).id m.tasks ≡ none
      → IsExact m
      → IsExact (start next_id m input now)
  unfolding start new_task completions
  start-IsExact m input now n x =
      if_both IsExact
        (not (is_foreground t.placement) || ltb (foreground_running recorded.tasks) m.limit)
        (launch-IsExact recorded t now (find-save_same t m.tasks) refl exact) exact
    where
      t : TaskRecord
      t = new_task next_id m input now

      recorded : BackgroundManager
      recorded = record (emit (save_task m t) (start_recorded (view t) ∷ [])) {
        issued = m.issued + 1;
      }

      exact : IsExact recorded
      exact =
          save-IsExact_emitted m t (start_recorded (view t) ∷ [])
            (λ id. ground (arith, find-save id t m.tasks, n, text_eq→eq id t.id)) x

  pub new_manager-IsExact : (limit hard_stop : Option ℕ) → IsExact (new_manager limit hard_stop)
  unfolding completions find
  new_manager-IsExact limit hard_stop id = refl
