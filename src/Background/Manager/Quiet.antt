-- ===== src/Background/Manager/Quiet.antt =====
-- packages/background/src/manager.ts: the changes of a task's record that neither end nor launch it.
use qwen_harness.Prelude.{ℕ, ◌≡◌, refl, sym, ap, ◌∙◌, Bool, true, false, ◌||◌, some, Text}
use qwen_harness.Background.Table.{
  TaskStatus, TaskRecord, InputRequest, is_terminal_status, is_queued, is_running, is_awaiting,
  is_blocked, find, find-id,
}
use qwen_harness.Background.State.{
  BackgroundManager, ManagerEffect, completion_recorded, receive, awaiting, resumed, suspended,
  detected, awaited, warned,
}

-- A change of a task that has not ended, which neither ends nor launches nor queues it.
pub record IsQuiet (t u : TaskRecord) : Type 0 where
  pub same_id : u.id ≡ t.id
  pub same_placement : u.placement ≡ t.placement
  pub not_ended : is_terminal_status t.status ≡ false
  pub still_not_ended : is_terminal_status u.status ≡ false
  pub same_queued : is_queued u.status ≡ is_queued t.status

abbrev pub is_completion : ManagerEffect → Bool
is_completion (completion_recorded v ok) = true
is_completion _ = false

-- The task is in the table as it stands.
abbrev pub IsCurrent : BackgroundManager → TaskRecord → Type 0
IsCurrent m t = find t.id m.tasks ≡ some t

pub awaiting-IsQuiet :
    (t : TaskRecord) (request : InputRequest) (now : ℕ)
    → is_terminal_status t.status ≡ false
    → is_queued t.status ≡ false
    → IsQuiet t (awaiting t request now)
unfolding awaiting
awaiting-IsQuiet t request now e q = record {
  same_id = refl;
  same_placement = refl;
  not_ended = e;
  still_not_ended = refl;
  same_queued = sym q;
}

-- A change that leaves the status alone.
abbrev pub plain :
    {t u : TaskRecord}
    → u.id ≡ t.id
    → u.placement ≡ t.placement
    → u.status ≡ t.status
    → is_terminal_status t.status ≡ false
    → IsQuiet t u
plain i f s e = record {
  same_id = i;
  same_placement = f;
  not_ended = e;
  still_not_ended = ap is_terminal_status s ∙ e;
  same_queued = ap is_queued s;
}

pub warned-IsQuiet :
    (t : TaskRecord) (chunk : Text)
    → is_terminal_status t.status ≡ false
    → IsQuiet t (warned t chunk)
unfolding warned receive
warned-IsQuiet t chunk e = plain refl refl refl e

pub receive-IsQuiet :
    (t : TaskRecord) (chunk : Text)
    → is_terminal_status t.status ≡ false
    → IsQuiet t (receive t chunk)
unfolding receive
receive-IsQuiet t chunk e = plain refl refl refl e

pub detected-IsQuiet :
    (t : TaskRecord) (now : ℕ) → is_terminal_status t.status ≡ false → IsQuiet t (detected t now)
unfolding detected
detected-IsQuiet t now e = plain refl refl refl e

pub awaited-IsQuiet :
    (t : TaskRecord) (waiter : ℕ)
    → is_terminal_status t.status ≡ false
    → IsQuiet t (awaited t waiter)
unfolding awaited
awaited-IsQuiet t waiter e = plain refl refl refl e

-- A task that waits for input, or was blocked while it waited, has started and not ended.
pub waiting_status :
    (s : TaskStatus)
    → is_awaiting s || is_blocked s ≡ true
    → (is_terminal_status s ≡ false) × (is_queued s ≡ false)
waiting_status TaskStatus.awaiting_input h = (refl, refl)
waiting_status TaskStatus.blocked h = (refl, refl)
waiting_status TaskStatus.queued h = cc
waiting_status TaskStatus.running h = cc
waiting_status TaskStatus.succeeded h = cc
waiting_status TaskStatus.failed h = cc
waiting_status TaskStatus.cancelled h = cc

pub running_status :
    (s : TaskStatus) → is_running s ≡ true → (is_terminal_status s ≡ false) × (is_queued s ≡ false)
running_status TaskStatus.running h = (refl, refl)
running_status TaskStatus.awaiting_input h = cc
running_status TaskStatus.blocked h = cc
running_status TaskStatus.queued h = cc
running_status TaskStatus.succeeded h = cc
running_status TaskStatus.failed h = cc
running_status TaskStatus.cancelled h = cc

pub resumed-IsQuiet :
    (t : TaskRecord) → is_awaiting t.status || is_blocked t.status ≡ true → IsQuiet t (resumed t)
unfolding resumed
resumed-IsQuiet t h =
    let w = waiting_status t.status h in
    record {
      same_id = refl;
      same_placement = refl;
      not_ended = w.0;
      still_not_ended = refl;
      same_queued = sym w.1;
    }

pub suspended-IsQuiet : (t : TaskRecord) → is_awaiting t.status ≡ true → IsQuiet t (suspended t)
unfolding suspended
suspended-IsQuiet t h =
    let w = waiting_status t.status (rw h refl) in
    record {
      same_id = refl;
      same_placement = refl;
      not_ended = w.0;
      still_not_ended = refl;
      same_queued = sym w.1;
    }

pub current :
    (m : BackgroundManager) (id : Text) (t : TaskRecord) → find id m.tasks ≡ some t → IsCurrent m t
current m id t h = ap (λ i. find i m.tasks) (find-id id m.tasks t h) ∙ h
