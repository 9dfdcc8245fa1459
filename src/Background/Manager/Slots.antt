-- ===== src/Background/Manager/Slots.antt =====
-- packages/background/src/manager.ts: the slots of the foreground and the queue for them.
use qwen_harness.Prelude.{
  ℕ, ◌+◌, ◌≤◌, ◌<◌, ◌≡◌, refl, sym, ap, ◌∙◌, ◌⊎◌, inl, inr, Bool, true, false, List, [], ◌∷◌, none,
  some, Text, str, includes, text_eq, text_eq→eq, arith, ltb, ltb→lt, ltb_false→le, Bool-cases,
  Option-cases,
}
use qwen_harness.Background.Notifications.{NotificationKind}
use qwen_harness.Background.Table.{
  TaskStatus, TaskRecord, is_terminal_status, is_queued, is_foreground, holds_slot, count_if, find,
  save, foreground_running, find-id, find-save, find-save_same, foreground_running-save,
}
use qwen_harness.Background.State.{BackgroundManager, save_task, launched}
use qwen_harness.Background.Manager.{notify, launch, launch_queued, admit_from}
use qwen_harness.Background.Manager.Quiet.{IsQuiet, IsCurrent, current}

module _ (next_id : Text → ℕ → Text) where
  -- No more tasks hold a slot than there are; every queued task is among the ids, and the ids that are not
  -- issued yet are not in the table.
  pub record IsOpen (ids : List Text) (m : BackgroundManager) : Type 0 where
    pub within : foreground_running m.tasks ≤ m.limit
    pub listed :
        (id : Text) (t : TaskRecord)
        → find id m.tasks ≡ some t
        → is_queued t.status ≡ true
        → includes ids id ≡ true
    pub unissued : (k : ℕ) → m.issued ≤ k → find (next_id (str "bgt") k) m.tasks ≡ none

  -- Besides, a task queues only while every slot is held.
  pub record IsSteady (m : BackgroundManager) : Type 0 where
    pub opened : IsOpen m.queue m
    pub busy : (m.queue ≡ []) ⊎ (m.limit ≤ foreground_running m.tasks)

  holds_slot-IsQuiet : {t u : TaskRecord} → IsQuiet t u → holds_slot u ≡ holds_slot t
  holds_slot-IsQuiet q = rw (q.same_placement, q.not_ended, q.still_not_ended, q.same_queued) refl

  unissued-save :
      (m : BackgroundManager) (t u : TaskRecord) (k : ℕ)
      → IsCurrent m t
      → u.id ≡ t.id
      → find (next_id (str "bgt") k) m.tasks ≡ none
      → find (next_id (str "bgt") k) (save u m.tasks) ≡ none
  unissued-save m t u k c i n = ground (
    arith,
    c,
    i,
    n,
    find-save (next_id (str "bgt") k) u m.tasks,
    text_eq→eq (next_id (str "bgt") k) u.id,
  )

  -- The record of a task that is there replaced by one that is queued only if the other is.
  pub save_task-IsOpen :
      (ids : List Text) (m : BackgroundManager) (t u : TaskRecord)
      → IsCurrent m t
      → u.id ≡ t.id
      → (is_queued u.status ≡ true → is_queued t.status ≡ true)
      → foreground_running (save u m.tasks) ≤ m.limit
      → IsOpen ids m
      → IsOpen ids (save_task m u)
  save_task-IsOpen ids m t u c i q w o = record {
    within = w;
    listed = λ id v f h. elim (Bool-cases (text_eq id u.id)) [
      | inl e ↦
          let same = text_eq→eq id u.id e ∙ i in
          o.listed id t (ap (λ j. find j m.tasks) same ∙ c)
            (q (ground (arith, h, f, e, find-save id u m.tasks)))
      | inr e ↦ o.listed id v (sym (find-save id u m.tasks ∙ rw e refl) ∙ f) h
    ];
    unissued = λ k b. unissued-save m t u k c i (o.unissued k b);
  }

  pub count_at_most : (b : Bool) → count_if b ≤ 1
  count_at_most true = omega arith
  count_at_most false = omega arith

  not_held : (t : TaskRecord) → is_queued t.status ≡ true → holds_slot t ≡ false
  not_held t h = ground (arith, h)

  pub ended_not_held : (t : TaskRecord) → is_terminal_status t.status ≡ true → holds_slot t ≡ false
  ended_not_held t h = ground (arith, h)

  pub ended_not_queued : (s : TaskStatus) → is_terminal_status s ≡ true → is_queued s ≡ false
  ended_not_queued s h = grind (arith, h)

  pub save-IsSteady :
      (m : BackgroundManager) (t u : TaskRecord)
      → IsCurrent m t
      → IsQuiet t u
      → IsSteady m
      → IsSteady (save_task m u)
  save-IsSteady m t u c q s = record {
    opened =
        save_task-IsOpen m.queue m t u (c) q.same_id (λ h. sym q.same_queued ∙ h)
          (omega (arith, same, s.opened.within)) s.opened;
    busy = rw same s.busy;
  }
    where
      same : foreground_running (save u m.tasks) ≡ foreground_running m.tasks
      same = omega (
        arith,
        foreground_running-save u t m.tasks (ap (λ i. find i m.tasks) q.same_id ∙ c),
        ap count_if (holds_slot-IsQuiet q),
      )

  pub notify-IsSteady :
      (m : BackgroundManager) (t : TaskRecord) (kind : NotificationKind) (message : Text) (now : ℕ)
      → IsSteady m
      → IsSteady (notify next_id m t kind message now)
  unfolding notify
  notify-IsSteady m t kind message now s = record {
    opened = record {
      within = s.opened.within;
      listed = s.opened.listed;
      unissued = λ k b. s.opened.unissued k (omega (arith, b));
    };
    busy = s.busy;
  }

  pub skip-IsOpen :
      (m : BackgroundManager) (id : Text) (rest : List Text)
      → ((u : TaskRecord) → find id m.tasks ≡ some u → is_queued u.status ≡ false)
      → IsOpen (id ∷ rest) m
      → IsOpen rest m
  skip-IsOpen m id rest f o = record {
    within = o.within;
    listed = λ j u g h. ground (arith, o.listed j u g h, f u, g, h, text_eq→eq j id);
    unissued = o.unissued;
  }

  pub launched_slots :
      (m : BackgroundManager) (t : TaskRecord) (now : ℕ)
      → IsCurrent m t
      → is_queued t.status ≡ true
      → foreground_running (launch m t now).tasks
        ≡ foreground_running m.tasks + count_if (is_foreground t.placement)
  unfolding launch launched
  launched_slots m t now c q = omega (
    arith,
    foreground_running-save (launched t now) t m.tasks c,
    ap count_if (not_held t q),
    ap count_if held,
  )
    where
      held : holds_slot (launched t now) ≡ is_foreground t.placement
      held = ground arith

  pub launch-IsOpen :
      (ids : List Text) (m : BackgroundManager) (t : TaskRecord) (now : ℕ)
      → IsCurrent m t
      → foreground_running (launch m t now).tasks ≤ m.limit
      → IsOpen ids m
      → IsOpen ids (launch m t now)
  unfolding launch launched
  launch-IsOpen ids m t now c w o =
      let saved = save_task-IsOpen ids m t (launched t now) c refl (λ h. cc) w o in
      record { within = saved.within; listed = saved.listed; unissued = saved.unissued }

  -- A queued task that takes a free slot.
  launch_queued-IsOpen :
      (m : BackgroundManager) (id : Text) (rest : List Text) (now : ℕ)
      → foreground_running m.tasks < m.limit
      → IsOpen (id ∷ rest) m
      → IsOpen rest (launch_queued m id now)
  unfolding launch_queued launch launched
  launch_queued-IsOpen m id rest now room o = elim (Option-cases (find id m.tasks)) [
    | inl e ↦ rw (e, launch_queued) (skip-IsOpen m id rest (λ t f. ground (arith, e, f)) o)
    | inr (t, e) ↦
        rw (e, launch_queued)
          (elim (Bool-cases (is_queued t.status)) [
            | inl q ↦ rw q (launch_listed t e q)
            | inr q ↦ rw q (skip-IsOpen m id rest (λ u f. ground (arith, e, f, q)) o)
          ])
  ]
    where
      launch_listed :
          (t : TaskRecord)
          → find id m.tasks ≡ some t
          → is_queued t.status ≡ true
          → IsOpen rest (launch m t now)
      launch_listed t e q =
          let c = current m id t e in
          skip-IsOpen (launch m t now) id rest
            (λ u f.
              ground (arith, f, find-save_same (launched t now) m.tasks, find-id id m.tasks t e))
            (launch-IsOpen (id ∷ rest) m t now c
              (omega (
                arith,
                room,
                launched_slots m t now c q,
                count_at_most (is_foreground t.placement),
              ))
              o)

  -- `#admitNext` fills the free slots, or empties the queue.
  pub admit_from-IsSteady :
      (m : BackgroundManager) (ids : List Text) (now : ℕ)
      → IsOpen ids m
      → IsSteady (admit_from m ids now)
  unfolding admit_from
  admit_from-IsSteady m [] now o = record { opened = reopen o; busy = inl refl }
    where
      reopen : IsOpen [] m → IsOpen [] (record m { queue = [] })
      reopen o = record { within = o.within; listed = o.listed; unissued = o.unissued }
  admit_from-IsSteady m (id ∷ rest) now o =
      elim (Bool-cases (ltb (foreground_running m.tasks) m.limit)) [
        | inl e ↦ rw e (
            admit_from-IsSteady (launch_queued m id now) rest now
              (launch_queued-IsOpen m id rest now (ltb→lt _ _ e) o))
        | inr e ↦ rw e (record {
          opened = record { within = o.within; listed = o.listed; unissued = o.unissued };
          busy = inr (ltb_false→le _ _ e);
        })
      ]
