-- ===== src/Background/Manager/Waiting.antt =====
-- packages/background/src/manager.ts: how many foreground tasks run at once, and when a task waits.
use qwen_harness.Prelude.{
  ℕ, ◌+◌, ◌≤◌, ◌<◌, ◌≡◌, refl, sym, ap, ◌∙◌, ◌⊎◌, inl, inr, true, false, not, ◌||◌, List, [], ◌∷◌,
  ◌++◌, some, Text, str, includes, text_eq→eq, arith, ltb, Bool-cases, Option, if_both,
}
use qwen_harness.Background.Table.{
  TaskStatus, TaskRecord, RunnerExit, is_terminal_status, is_queued, is_foreground, holds_slot,
  count_if, view, find, save, foreground_running, find-save, find-save_same,
  foreground_running-save, foreground_running-save_new,
}
use qwen_harness.Background.State.{
  BackgroundManager, StartInput, save_task, emit, settled, launched, new_manager, or_default,
  foreground_concurrency, start_recorded,
}
use qwen_harness.Background.Manager.{notify, launch, finish, settle, admit_next, new_task, start}
use qwen_harness.Background.Manager.Calls.{Call, run}
use qwen_harness.Background.Manager.Quiet.{IsCurrent}
use qwen_harness.Background.Manager.Keeping.{IsKept}
use qwen_harness.Background.Manager.Steps.{run-keeps}
use qwen_harness.Background.Manager.Admission.{settle-keeps}
use qwen_harness.Background.Manager.Slots.{
  IsOpen, IsSteady, save_task-IsOpen, save-IsSteady, notify-IsSteady, admit_from-IsSteady,
  skip-IsOpen, launch-IsOpen, launched_slots, count_at_most, ended_not_held, ended_not_queued,
}

false-not-true : ¬ (false ≡ true)
false-not-true h = cc

module _ (next_id : Text → ℕ → Text)
    (next_id_inj : (j k : ℕ) → next_id (str "bgt") j ≡ next_id (str "bgt") k → j ≡ k) where
  finish-slots :
      (m : BackgroundManager) (t : TaskRecord) (status : TaskStatus) (exit : RunnerExit) (now : ℕ)
      → is_terminal_status status ≡ true
      → IsCurrent m t
      → foreground_running (finish next_id m t status exit now).tasks + count_if (holds_slot t)
        ≡ foreground_running m.tasks
  unfolding finish notify settled
  finish-slots m t status exit now e c = omega (
    arith,
    foreground_running-save (settled t status exit now) t m.tasks c,
    ap count_if (ended_not_held next_id (settled t status exit now) e),
  )

  finish-IsOpen :
      (m : BackgroundManager) (t : TaskRecord) (status : TaskStatus) (exit : RunnerExit) (now : ℕ)
      → is_terminal_status status ≡ true
      → IsCurrent m t
      → IsOpen next_id m.queue m
      → IsOpen next_id m.queue (finish next_id m t status exit now)
  unfolding finish notify settled
  finish-IsOpen m t status exit now e c o =
      let slots = finish-slots m t status exit now e c in
      let saved =
        save_task-IsOpen next_id m.queue m t (settled t status exit now) c refl
          (λ h. absurd (false-not-true (sym (ended_not_queued next_id status e) ∙ h)))
          (omega (arith, slots, o.within)) o in
      record {
        within = saved.within;
        listed = saved.listed;
        unissued = λ k b. saved.unissued k (omega (arith, b));
      }

  settle-IsSteady :
      (m : BackgroundManager) (t : TaskRecord) (status : TaskStatus) (exit : RunnerExit) (now : ℕ)
      → is_terminal_status status ≡ true
      → IsCurrent m t
      → IsSteady next_id m
      → IsSteady next_id (settle next_id m t status exit now)
  unfolding settle admit_next finish notify
  settle-IsSteady m t status exit now e c s = elim (Bool-cases (is_terminal_status t.status)) [
    | inl f ↦ rw f s
    | inr f ↦ rw f (elim (Bool-cases (is_foreground t.placement)) [
      | inl g ↦
          rw g (admit_from-IsSteady next_id (finish next_id m t status exit now) m.queue now ended)
      | inr g ↦ rw g (record {
        opened = ended;
        busy = ground (arith, s.busy, finish-slots m t status exit now e c, g);
      })
    ])
  ]
    where
      ended : IsOpen next_id m.queue (finish next_id m t status exit now)
      ended = finish-IsOpen m t status exit now e c s.opened

  launched-IsSteady :
      (m : BackgroundManager) (t : TaskRecord) (now : ℕ)
      → IsCurrent m t
      → is_queued t.status ≡ true
      → IsOpen next_id (t.id ∷ m.queue) m
      → (is_foreground t.placement ≡ false) ⊎ (foreground_running m.tasks < m.limit)
      → (m.queue ≡ []) ⊎ (m.limit ≤ foreground_running m.tasks)
      → IsSteady next_id (launch m t now)
  unfolding launch launched
  launched-IsSteady m t now c q o room b =
      let slots = launched_slots next_id m t now c q in
      record {
        opened =
            skip-IsOpen next_id (launch m t now) t.id m.queue
              (λ u f. ground (arith, f, find-save_same (launched t now) m.tasks))
              (launch-IsOpen next_id (t.id ∷ m.queue) m t now c
                (ground
                  (arith, slots, room, o.within, count_at_most next_id (is_foreground t.placement)))
                o);
        busy = ground (arith, slots, b);
      }

  -- The manager with the new task in its table, before it is launched or queued.
  recorded-IsOpen :
      (m : BackgroundManager) (input : StartInput) (now : ℕ)
      → IsSteady next_id m
      → let t = new_task next_id m input now in
        IsOpen next_id (t.id ∷ m.queue) (record (save_task m t) { issued = m.issued + 1 })
        × (foreground_running (save t m.tasks) ≡ foreground_running m.tasks)
  unfolding new_task
  recorded-IsOpen m input now s =
      let t = new_task next_id m input now in
      let slots =
        foreground_running-save_new t m.tasks (s.opened.unissued m.issued (omega arith)) in
      (
        record {
          within = ground (arith, slots, s.opened.within);
          listed = λ j u f h. ground (arith, find-save j t m.tasks, f, h, s.opened.listed j u);
          unissued = λ k b. ground (
            arith,
            find-save (next_id (str "bgt") k) t m.tasks,
            text_eq→eq (next_id (str "bgt") k) t.id,
            next_id_inj k m.issued,
            s.opened.unissued k (omega (arith, b)),
          );
        },
        ground (arith, slots),
      )

  includes-append_one :
      (ids : List Text) (id j : Text) → includes (ids ++ id ∷ []) j ≡ includes (id ∷ ids) j
  includes-append_one [] id j = refl
  includes-append_one (x ∷ ids) id j = ground (arith, includes-append_one ids id j)

  start-IsSteady :
      (m : BackgroundManager) (input : StartInput) (now : ℕ)
      → IsSteady next_id m
      → IsSteady next_id (start next_id m input now)
  unfolding start new_task
  start-IsSteady m input now s =
      elim (Bool-cases
        (not (is_foreground t.placement) || ltb (foreground_running (save t m.tasks)) m.limit)) [
          | inl e ↦ rw e (
              launched-IsSteady recorded t now (find-save_same t m.tasks) refl
                (record { within = o.within; listed = o.listed; unissued = o.unissued })
                (ground (arith, e)) (ground (arith, kept.1, s.busy)))
          | inr e ↦ rw e (record {
            opened = record {
              within = o.within;
              listed = λ j u f h. includes-append_one m.queue t.id j ∙ o.listed j u f h;
              unissued = o.unissued;
            };
            busy = inr (ground (arith, e));
          })
        ]
    where
      t : TaskRecord
      t = new_task next_id m input now

      recorded : BackgroundManager
      recorded = record (emit (save_task m t) (start_recorded (view t) ∷ [])) {
        issued = m.issued + 1;
      }

      kept :
          IsOpen next_id (t.id ∷ m.queue) (record (save_task m t) { issued = m.issued + 1 })
          × (foreground_running (save t m.tasks) ≡ foreground_running m.tasks)
      kept = recorded-IsOpen m input now s

      o : IsOpen next_id (t.id ∷ m.queue) (record (save_task m t) { issued = m.issued + 1 })
      o = kept.0

  pub IsSteady-IsKept : IsKept next_id (IsSteady next_id)
  IsSteady-IsKept = record {
    of_save = λ m t u c q s. save-IsSteady next_id m t u c q s;
    of_notify = λ m t kind message now s. notify-IsSteady next_id m t kind message now s;
    of_emit = λ m e f s. record {
      opened = record {
        within = s.opened.within;
        listed = s.opened.listed;
        unissued = s.opened.unissued;
      };
      busy = s.busy;
    };
    of_settle = λ m t status exit now e c s. settle-IsSteady m t status exit now e c s;
    of_start = λ m input now s. start-IsSteady m input now s;
  }

  pub new_manager-IsSteady :
      (limit hard_stop : Option ℕ) → IsSteady next_id (new_manager limit hard_stop)
  unfolding foreground_running find
  new_manager-IsSteady limit hard_stop = record {
    opened = record { within = omega arith; listed = λ id t f h. cc; unissued = λ k b. refl };
    busy = inl refl;
  }

  limit-IsKept : (limit : ℕ) → IsKept next_id (λ m. m.limit ≡ limit)
  unfolding notify launch finish start new_task
  limit-IsKept limit = record {
    of_save = λ m t u c q e. e;
    of_notify = λ m t kind message now e. e;
    of_emit = λ m f g e. e;
    of_settle = λ m t status exit now f c e.
        settle-keeps next_id (λ m. m.limit ≡ limit) (λ m t now c q e. e) (λ m ids e. e) m t status
          exit now (λ f. e) e;
    of_start = λ m input now e.
        let t = new_task next_id m input now in
        if_both (λ (n : BackgroundManager). n.limit ≡ limit)
          (not (is_foreground t.placement) || ltb (foreground_running (save t m.tasks)) m.limit) e
          e;
  }

  run-limit :
      (limit hard_stop : Option ℕ) (cs : List (ℕ × Call))
      → (run next_id (new_manager limit hard_stop) cs).limit
        ≡ or_default limit foreground_concurrency
  run-limit limit hard_stop cs =
      run-keeps next_id (limit-IsKept (or_default limit foreground_concurrency))
        (new_manager limit hard_stop) cs refl

  -- With ids that differ, after any calls on a new manager no more foreground tasks have
  -- started and not ended than the limit it was made with, which is four by default.
  pub run-within_limit :
      (limit hard_stop : Option ℕ) (cs : List (ℕ × Call))
      → let m = run next_id (new_manager limit hard_stop) cs in
        foreground_running m.tasks ≤ or_default limit foreground_concurrency
  run-within_limit limit hard_stop cs =
      let s =
        run-keeps next_id IsSteady-IsKept (new_manager limit hard_stop) cs
          (new_manager-IsSteady limit hard_stop) in
      omega (arith, run-limit limit hard_stop cs, s.opened.within)

  -- With ids that differ, whenever a task is queued after any calls on a new manager, its id is
  -- in the queue and as many tasks hold a slot as the limit it was made with, four by default:
  -- no slot stays free while a task waits.
  pub run-full_while_queued :
      (limit hard_stop : Option ℕ) (cs : List (ℕ × Call)) (id : Text) (t : TaskRecord)
      → let m = run next_id (new_manager limit hard_stop) cs in
        find id m.tasks ≡ some t
        → is_queued t.status ≡ true
        → (includes m.queue id ≡ true)
          × (foreground_running m.tasks ≡ or_default limit foreground_concurrency)
  run-full_while_queued limit hard_stop cs id t f h =
      let s =
        run-keeps next_id IsSteady-IsKept (new_manager limit hard_stop) cs
          (new_manager-IsSteady limit hard_stop) in
      (
        s.opened.listed id t f h,
        ground (arith, s.busy, s.opened.within, s.opened.listed id t f h)
            ∙ run-limit limit hard_stop cs,
      )
