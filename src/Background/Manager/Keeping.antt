-- ===== src/Background/Manager/Keeping.antt =====
-- packages/background/src/manager.ts: what every call keeps, from what its parts keep.
use qwen_harness.Prelude.{
  ℕ, ◌≡◌, refl, inl, inr, true, false, ◌&&◌, [], ◌∷◌, Text, leb, if_both, Bool-cases, Option-cases,
  is_none, and-true,
}
use qwen_harness.Background.Notifications.{NotificationKind}
use qwen_harness.Background.Table.{
  TaskStatus, TaskRecord, InputRequest, RunnerExit, is_terminal_status, is_queued, is_running, find,
  find-save_same,
}
use qwen_harness.Background.State.{
  BackgroundManager, StartInput, ManagerEffect, save_task, emit, cancel_runner, receive, awaiting,
  detected, warns, warned,
}
use qwen_harness.Background.Manager.{
  notify, settle, enter_awaiting_input, on_input_wait_detected, take_output, taken_record,
  on_output, on_exit, start,
}
use qwen_harness.Background.Watch.{with_task}
use qwen_harness.Background.Manager.Calls.{
  Callback, output, input_requested, input_wait_detected, exited, call_back, launched_back,
}
use qwen_harness.Background.Manager.Quiet.{
  IsQuiet, is_completion, IsCurrent, awaiting-IsQuiet, warned-IsQuiet, receive-IsQuiet,
  detected-IsQuiet, running_status, current,
}

module _ (next_id : Text → ℕ → Text) where
  pub record IsKept {ℓ} (P : BackgroundManager → Type ℓ) : Type ℓ where
    pub of_save :
        (m : BackgroundManager) (t u : TaskRecord)
        → IsCurrent m t
        → IsQuiet t u
        → P m
        → P (save_task m u)
    pub of_notify :
        (m : BackgroundManager) (t : TaskRecord) (kind : NotificationKind) (message : Text)
        (now : ℕ)
        → P m
        → P (notify next_id m t kind message now)
    pub of_emit :
        (m : BackgroundManager) (e : ManagerEffect)
        → is_completion e ≡ false
        → P m
        → P (emit m (e ∷ []))
    pub of_settle :
        (m : BackgroundManager) (t : TaskRecord) (status : TaskStatus) (exit : RunnerExit) (now : ℕ)
        → is_terminal_status status ≡ true
        → IsCurrent m t
        → P m
        → P (settle next_id m t status exit now)
    pub of_start :
        (m : BackgroundManager) (input : StartInput) (now : ℕ) → P m → P (start next_id m input now)

  module _ {ℓ} {P : BackgroundManager → Type ℓ} (k : IsKept P) where
    pub cancel_runner-keeps : (m : BackgroundManager) (t : TaskRecord) → P m → P (cancel_runner m t)
    unfolding cancel_runner
    cancel_runner-keeps m t p = if_both P t.control (k.of_emit m _ refl p) p

    pub enter_awaiting_input-keeps :
        (m : BackgroundManager) (t : TaskRecord) (request : InputRequest) (now : ℕ)
        → IsCurrent m t
        → is_queued t.status ≡ false
        → P m
        → P (enter_awaiting_input next_id m t request now)
    unfolding enter_awaiting_input
    enter_awaiting_input-keeps m t request now c q p =
        elim (Bool-cases (is_terminal_status t.status)) [
          | inl e ↦ rw e p
          | inr e ↦ rw e (
              k.of_notify _ (awaiting t request now) _ _ _
                (k.of_save m t (awaiting t request now) c (awaiting-IsQuiet t request now e q) p))
        ]

    take_output-keeps :
        (m : BackgroundManager) (t : TaskRecord) (chunk : Text) (now : ℕ)
        → IsCurrent m t
        → is_terminal_status t.status ≡ false
        → P m
        → P (take_output next_id m t chunk now)
          × IsCurrent (take_output next_id m t chunk now) (taken_record t chunk)
    unfolding take_output taken_record
    take_output-keeps m t chunk now c e p = elim (Bool-cases (warns t chunk)) [
      | inl f ↦ rw f (
        k.of_notify _ (warned t chunk) _ _ _
            (k.of_save m t (warned t chunk) c (warned-IsQuiet t chunk e) p),
        find-save_same (warned t chunk) m.tasks,
      )
      | inr f ↦ rw f (
        k.of_save m t (receive t chunk) c (receive-IsQuiet t chunk e) p,
        find-save_same (receive t chunk) m.tasks,
      )
    ]

    on_output-keeps :
        (m : BackgroundManager) (t : TaskRecord) (chunk : Text) (now : ℕ)
        → IsCurrent m t
        → P m
        → P (on_output next_id m t chunk now)
    unfolding on_output cancel_runner
    on_output-keeps m t chunk now c p = elim (Bool-cases (is_terminal_status t.status)) [
      | inl e ↦ rw e p
      | inr e ↦
          let (q, d) = take_output-keeps m t chunk now c e p in
          let taken = take_output next_id m t chunk now in
          let u = taken_record t chunk in
          rw e (
            if_both P (leb m.hard_stop_bytes u.output_bytes)
              (k.of_settle (cancel_runner taken u) u _ _ now refl
                (if_both (λ n. IsCurrent n u) u.control d d) (cancel_runner-keeps taken u q))
              q)
    ]

    on_exit-keeps :
        (m : BackgroundManager) (t : TaskRecord) (exit : RunnerExit) (now : ℕ)
        → IsCurrent m t
        → P m
        → P (on_exit next_id m t exit now)
    unfolding on_exit
    on_exit-keeps m t exit now c p =
        k.of_settle m t _ exit now (if_both (λ s. is_terminal_status s ≡ true) exit.ok refl refl) c
          p

    on_input_wait_detected-keeps :
        (m : BackgroundManager) (t : TaskRecord) (now : ℕ)
        → IsCurrent m t
        → P m
        → P (on_input_wait_detected m t now)
    unfolding on_input_wait_detected
    on_input_wait_detected-keeps m t now c p =
        elim (Bool-cases (is_running t.status && is_none t.detected_wait_since)) [
          | inl e ↦ rw e (
              k.of_save m t (detected t now) c
                (detected-IsQuiet t now (running_status t.status (and-true _ _ e).0).0) p)
          | inr e ↦ rw e p
        ]

    pub launched_back-keeps :
        (m : BackgroundManager) (t : TaskRecord) (callback : Callback) (now : ℕ)
        → IsCurrent m t
        → P m
        → P (launched_back next_id m t callback now)
    launched_back-keeps m t callback now c p = elim (Bool-cases (is_queued t.status)) [
      | inl e ↦ rw e p
      | inr e ↦ rw e (go callback e)
    ]
      where
        go : (b : Callback) → is_queued t.status ≡ false → P (call_back next_id m t b now)
        go (output chunk) e = on_output-keeps m t chunk now c p
        go (input_requested request) e = enter_awaiting_input-keeps m t request now c e p
        go input_wait_detected e = on_input_wait_detected-keeps m t now c p
        go (exited exit) e = on_exit-keeps m t exit now c p

    -- What holds after an act on a task that is in the table.
    pub with_task-keeps :
        (m : BackgroundManager) (id : Text) (act : TaskRecord → BackgroundManager)
        → ((t : TaskRecord) → IsCurrent m t → P (act t))
        → P m
        → P (with_task m id act)
    with_task-keeps m id act f p = elim (Option-cases (find id m.tasks)) [
      | inl e ↦ rw (e, with_task) p
      | inr (t, e) ↦ rw (e, with_task) (f t (current m id t e))
    ]
