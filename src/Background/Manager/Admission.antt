-- ===== src/Background/Manager/Admission.antt =====
-- packages/background/src/manager.ts: what the admission of queued tasks, and the end of a task, keep.
use qwen_harness.Prelude.{
  ℕ, ◌≡◌, inl, inr, true, false, List, [], ◌∷◌, Text, ltb, if_both, Bool-cases, Option-cases,
}
use qwen_harness.Background.Table.{
  TaskStatus, TaskRecord, RunnerExit, is_terminal_status, is_queued, is_foreground, find,
  foreground_running,
}
use qwen_harness.Background.State.{BackgroundManager}
use qwen_harness.Background.Manager.{launch, launch_queued, admit_from, admit_next, finish, settle}
use qwen_harness.Background.Manager.Quiet.{IsCurrent, current}

module _ (next_id : Text → ℕ → Text) where
  -- What a launch of a queued task keeps, and a change of the queue, the admission of tasks keeps.
  module _ {ℓ} (P : BackgroundManager → Type ℓ)
      (of_launch : (m : BackgroundManager) (t : TaskRecord) (now : ℕ)
        → IsCurrent m t
        → is_queued t.status ≡ true
        → P m
        → P (launch m t now))
      (of_queue : (m : BackgroundManager) (ids : List Text)
        → P m
        → P (record m { queue = ids })) where
    launch_queued-keeps :
        (m : BackgroundManager) (id : Text) (now : ℕ) → P m → P (launch_queued m id now)
    unfolding launch_queued
    launch_queued-keeps m id now p = elim (Option-cases (find id m.tasks)) [
      | inl e ↦ rw (e, launch_queued) p
      | inr (t, e) ↦
          rw (e, launch_queued)
            (elim (Bool-cases (is_queued t.status)) [
              | inl q ↦ rw q (of_launch m t now (current m id t e) q p)
              | inr q ↦ rw q p
            ])
    ]

    admit_from-keeps :
        (m : BackgroundManager) (ids : List Text) (now : ℕ) → P m → P (admit_from m ids now)
    unfolding admit_from
    admit_from-keeps m [] now p = of_queue m [] p
    admit_from-keeps m (id ∷ rest) now p =
        if_both P (ltb (foreground_running m.tasks) m.limit)
          (admit_from-keeps (launch_queued m id now) rest now (launch_queued-keeps m id now p))
          (of_queue m (id ∷ rest) p)

    pub settle-keeps :
        (m : BackgroundManager) (t : TaskRecord) (status : TaskStatus) (exit : RunnerExit) (now : ℕ)
        → (is_terminal_status t.status ≡ false → P (finish next_id m t status exit now))
        → P m
        → P (settle next_id m t status exit now)
    unfolding settle admit_next
    settle-keeps m t status exit now f p = elim (Bool-cases (is_terminal_status t.status)) [
      | inl e ↦ rw e p
      | inr e ↦
          let done = finish next_id m t status exit now in
          rw e (
            if_both P (is_foreground t.placement) (admit_from-keeps done done.queue now (f e))
              (f e))
    ]
