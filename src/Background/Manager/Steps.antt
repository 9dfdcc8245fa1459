-- ===== src/Background/Manager/Steps.antt =====
-- packages/background/src/manager.ts: what every call, and every run of calls, keeps.
use qwen_harness.Prelude.{
  ℕ, refl, inl, inr, not, ◌&&◌, ◌||◌, List, [], ◌∷◌, Text, map, if_both, Bool-cases, Option-cases,
  and-true,
}
use qwen_harness.Background.Table.{
  TaskRecord, is_terminal_status, is_running, is_awaiting, is_blocked, find,
}
use qwen_harness.Background.State.{
  BackgroundManager, cancel_runner, resumed, suspended, awaited, input_watchdog_ms,
  blocked_after_ms,
}
use qwen_harness.Background.Manager.{provide_input, stop, await_task}
use qwen_harness.Background.Watch.{
  promote, block, with_task, watch, watch_all, check_watchdogs, has_waited,
}
use qwen_harness.Background.Manager.Calls.{
  after, Call, starts, provides, stops, awaits, checks, calls_back, step, run,
}
use qwen_harness.Background.Manager.Quiet.{
  IsCurrent, awaited-IsQuiet, running_status, resumed-IsQuiet, suspended-IsQuiet, current,
}
use qwen_harness.Background.Manager.Keeping.{
  IsKept, cancel_runner-keeps, enter_awaiting_input-keeps, launched_back-keeps, with_task-keeps,
}

module _ {ℓ} (next_id : Text → ℕ → Text) {P : BackgroundManager → Type ℓ}
    (k : IsKept next_id P) where
  watch-keeps : (m : BackgroundManager) (id : Text) (now : ℕ) → P m → P (watch next_id m id now)
  unfolding watch promote block
  watch-keeps m id now p =
      with_task-keeps next_id k _ id _ second (with_task-keeps next_id k m id _ first p)
    where
      promoted : BackgroundManager
      promoted = with_task m id λ t. promote next_id m t now

      first : (t : TaskRecord) → IsCurrent m t → P (promote next_id m t now)
      first t c =
          elim (Bool-cases
            (is_running t.status && has_waited t.detected_wait_since input_watchdog_ms now)) [
              | inl e ↦ rw e (
                  enter_awaiting_input-keeps next_id k m t _ now c
                    (running_status t.status (and-true _ _ e).0).1 p)
              | inr e ↦ rw e p
            ]

      second : (t : TaskRecord) → IsCurrent promoted t → P (block next_id promoted t now)
      second t c =
          elim (Bool-cases (
            is_awaiting t.status
            && (not t.approval_channel && has_waited t.awaiting_since blocked_after_ms now))) [
              | inl e ↦ rw e (
                  k.of_notify _ (suspended t) _ _ _ (
                    k.of_save promoted t (suspended t) c (suspended-IsQuiet t (and-true _ _ e).0)
                      (with_task-keeps next_id k m id _ first p)))
              | inr e ↦ rw e (with_task-keeps next_id k m id _ first p)
            ]

  watch_all-keeps :
      (m : BackgroundManager) (ids : List Text) (now : ℕ) → P m → P (watch_all next_id m ids now)
  unfolding watch_all
  watch_all-keeps m [] now p = p
  watch_all-keeps m (id ∷ ids) now p =
      watch_all-keeps (watch next_id m id now) ids now (watch-keeps m id now p)

  provide_input-keeps :
      (m : BackgroundManager) (id value : Text) → P m → P (after m (provide_input m id value))
  unfolding provide_input
  provide_input-keeps m id value p = elim (Option-cases (find id m.tasks)) [
    | inl e ↦ rw (e, provide_input) p
    | inr (t, e) ↦
        rw (e, provide_input)
          (elim (Bool-cases (is_awaiting t.status || is_blocked t.status)) [
            | inl f ↦
                let q = k.of_save m t (resumed t) (current m id t e) (resumed-IsQuiet t f) p in
                rw f (if_both P t.control (k.of_emit _ _ refl q) q)
            | inr f ↦ rw f p
          ])
  ]

  stop-keeps :
      (m : BackgroundManager) (id : Text) (now : ℕ) → P m → P (after m (stop next_id m id now))
  unfolding stop cancel_runner
  stop-keeps m id now p = elim (Option-cases (find id m.tasks)) [
    | inl e ↦ rw (e, stop) p
    | inr (t, e) ↦
        let c = current m id t e in
        rw (e, stop)
          (if_both P (is_terminal_status t.status) p (
            k.of_settle (cancel_runner m t) t _ _ now refl
              (if_both (λ n. IsCurrent n t) t.control c c) (cancel_runner-keeps next_id k m t p)))
  ]

  await_task-keeps :
      (m : BackgroundManager) (id : Text) (waiter : ℕ) → P m → P (after m (await_task m id waiter))
  unfolding await_task
  await_task-keeps m id waiter p = elim (Option-cases (find id m.tasks)) [
    | inl e ↦ rw (e, await_task) p
    | inr (t, e) ↦
        rw (e, await_task)
          (elim (Bool-cases (is_terminal_status t.status)) [
            | inl f ↦ rw f (k.of_emit m _ refl p)
            | inr f ↦
                rw f (
                  k.of_save m t (awaited t waiter) (current m id t e) (awaited-IsQuiet t waiter f)
                    p)
          ])
  ]

  pub step-keeps : (m : BackgroundManager) (now : ℕ) (c : Call) → P m → P (step next_id m now c)
  unfolding step check_watchdogs
  step-keeps m now (starts input) p = k.of_start m input now p
  step-keeps m now (provides id value) p = provide_input-keeps m id value p
  step-keeps m now (stops id) p = stop-keeps m id now p
  step-keeps m now (awaits id waiter) p = await_task-keeps m id waiter p
  step-keeps m now checks p = watch_all-keeps m (map (λ t. t.id) m.tasks) now p
  step-keeps m now (calls_back id callback) p =
      with_task-keeps next_id k m id _ (λ t c. launched_back-keeps next_id k m t callback now c p) p

  pub run-keeps : (m : BackgroundManager) (cs : List (ℕ × Call)) → P m → P (run next_id m cs)
  unfolding run
  run-keeps m [] p = p
  run-keeps m ((now, c) ∷ cs) p = run-keeps (step next_id m now c) cs (step-keeps m now c p)
