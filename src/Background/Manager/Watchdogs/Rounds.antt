-- ===== src/Background/Manager/Watchdogs/Rounds.antt =====
-- packages/background/src/manager.ts: a round of the watchdogs against the times that the defaults document,
-- 30 seconds and five minutes, in milliseconds.
use qwen_harness.Prelude.{
  ℕ, ◌+◌, ◌*◌, ◌≤◌, ◌<◌, ◌≡◌, refl, ◌∙◌, ◌⊎◌, inl, inr, Bool, true, false, not, ◌&&◌, Option, none,
  some, Text, str, arith, and-true, Bool-cases,
}
use qwen_harness.Background.Table.{TaskStatus, TaskRecord, is_running, is_awaiting, find}
use qwen_harness.Background.State.{BackgroundManager, awaiting, suspended}
use qwen_harness.Background.Watch.{has_waited, check_watchdogs}
use qwen_harness.Background.Manager.Watchdogs.{watched, is_due, is_stuck, find-check_watchdogs}

-- A wait that has not begun, or that has lasted less than the span.
abbrev pub IsShort : ℕ → ℕ → Option ℕ → Type 0
IsShort span now none = Unit
IsShort span now (some since) = now < since + span

-- What a task in this status does not make the watchdogs act on.
abbrev pub IsPatient : ℕ → Option ℕ → Bool → Option ℕ → TaskStatus → Type 0
IsPatient now detected channel since TaskStatus.running = IsShort (30 * 1000) now detected
IsPatient now detected channel since TaskStatus.awaiting_input =
    (channel ≡ true) ⊎ IsShort (5 * 60 * 1000) now since
IsPatient now detected channel since _ = Unit

-- What a round makes of a task's record.
pub data Round (now : ℕ) (t : TaskRecord) : TaskRecord → Type 0 where
  asks :
      (since : ℕ)
      → t.status ≡ TaskStatus.running
      → t.detected_wait_since ≡ some since
      → since + 30 * 1000 ≤ now
      → Round now t (record t {
        status = TaskStatus.awaiting_input;
        awaiting_since = some now;
        detected_wait_since = none;
        last_input_request =
            some (record { prompt = str "input required (watchdog)"; secret = false });
      })
  blocks :
      (since : ℕ)
      → t.status ≡ TaskStatus.awaiting_input
      → t.approval_channel ≡ false
      → t.awaiting_since ≡ some since
      → since + 5 * 60 * 1000 ≤ now
      → Round now t (record t { status = TaskStatus.blocked })
  rests :
      IsPatient now t.detected_wait_since t.approval_channel t.awaiting_since t.status
      → Round now t t

running_lem : (s : TaskStatus) → is_running s ≡ true → s ≡ TaskStatus.running
running_lem s h = grind arith

awaiting_lem : (s : TaskStatus) → is_awaiting s ≡ true → s ≡ TaskStatus.awaiting_input
awaiting_lem s h = grind arith

has_waited_lem :
    (o : Option ℕ) (span now : ℕ)
    → has_waited o span now ≡ true
    → (since : ℕ) × (o ≡ some since) × (since + span ≤ now)
has_waited_lem none span now h = ground arith
has_waited_lem (some since) span now h = (since, refl, ground (arith, h))

not_waited_lem : (o : Option ℕ) (span now : ℕ) → has_waited o span now ≡ false → IsShort span now o
not_waited_lem none span now h = tt
not_waited_lem (some since) span now h = ground (arith, h)

patient_lem :
    (detected since : Option ℕ) (channel : Bool) (now : ℕ) (s : TaskStatus)
    → is_running s && has_waited detected (30 * 1000) now ≡ false
    → is_awaiting s && (not channel && has_waited since (5 * 60 * 1000) now) ≡ false
    → IsPatient now detected channel since s
patient_lem detected since channel now TaskStatus.running e f = not_waited_lem detected _ now e
patient_lem detected since true now TaskStatus.awaiting_input e f = inl refl
patient_lem detected since false now TaskStatus.awaiting_input e f =
    inr (not_waited_lem since _ now f)
patient_lem detected since channel now TaskStatus.queued e f = tt
patient_lem detected since channel now TaskStatus.blocked e f = tt
patient_lem detected since channel now TaskStatus.succeeded e f = tt
patient_lem detected since channel now TaskStatus.failed e f = tt
patient_lem detected since channel now TaskStatus.cancelled e f = tt

module _ (next_id : Text → ℕ → Text) where
  watched-Round : (t : TaskRecord) (now : ℕ) → Round now t (watched next_id now t)
  unfolding watched awaiting suspended
  watched-Round t now = elim (Bool-cases (is_due next_id now t)) [
    | inl e ↦
        let (runs, waited) = and-true _ _ e in
        let (since, d, l) = has_waited_lem t.detected_wait_since (30 * 1000) now waited in
        rw e (Round.asks since (running_lem t.status runs) d l)
    | inr e ↦ elim (Bool-cases (is_stuck next_id now t)) [
      | inl f ↦
          let (waits, rest) = and-true _ _ f in
          let (unheard, waited) = and-true _ _ rest in
          let (since, d, l) = has_waited_lem t.awaiting_since (5 * 60 * 1000) now waited in
          rw (e, f) (Round.blocks since (awaiting_lem t.status waits) (ground (arith, unheard)) d l)
      | inr f ↦ rw (e, f) (Round.rests (patient_lem _ _ _ now t.status e f))
    ]
  ]

  -- A round of the watchdogs asks for the input of a running task that has seemed to wait for at least 30
  -- seconds, blocks one that has awaited its input for at least five minutes with no channel for it, and
  -- leaves every other task of the table as it is.
  pub check_watchdogs-Round :
      (m : BackgroundManager) (id : Text) (now : ℕ) (t : TaskRecord)
      → find id m.tasks ≡ some t
      → (u : TaskRecord) × (find id (check_watchdogs next_id m now).tasks ≡ some u) × Round now t u
  check_watchdogs-Round m id now t e = (
    watched next_id now t,
    find-check_watchdogs next_id m id now ∙ rw e refl,
    watched-Round t now,
  )
