-- ===== src/Background/Manager/Watchdogs.antt =====
-- packages/background/src/manager.ts: what a round of the watchdogs does to each task.
pub mod Rounds
use qwen_harness.Prelude.{
  ℕ, ◌≡◌, refl, ap, ◌∙◌, inl, inr, Bool, true, false, not, ◌&&◌, ◌||◌, List, [], ◌∷◌, Option, none,
  some, Text, map, includes, text_eq, text_eq→eq, text_eq_refl, arith, if◌then◌else◌, Bool-cases,
  Option-cases, if_both, and-true,
}
use qwen_harness.Background.Table.{
  TaskRecord, is_running, is_awaiting, find, save, find-id, find-save,
}
use qwen_harness.Background.State.{
  BackgroundManager, awaiting, suspended, watchdog_request, input_watchdog_ms, blocked_after_ms,
}
use qwen_harness.Background.Manager.{notify, enter_awaiting_input}
use qwen_harness.Background.Watch.{
  promote, block, with_task, has_waited, watch, watch_all, check_watchdogs,
}
use qwen_harness.Background.Manager.Quiet.{running_status, current}

module _ (next_id : Text → ℕ → Text) where
  -- The two tests of a round as one choice.
  pub watched : ℕ → TaskRecord → TaskRecord
  watched now t =
      if is_running t.status && has_waited t.detected_wait_since input_watchdog_ms now
      then awaiting t watchdog_request now
      else if is_awaiting t.status
          && (not t.approval_channel && has_waited t.awaiting_since blocked_after_ms now)
      then suspended t
      else t

  abbrev pub watched_at : ℕ → Option TaskRecord → Option TaskRecord
  watched_at now none = none
  watched_at now (some t) = some (watched now t)

  not_waited : (now : ℕ) → has_waited (some now) blocked_after_ms now ≡ false
  not_waited now = ground arith

  abbrev pub is_due : ℕ → TaskRecord → Bool
  is_due now t = is_running t.status && has_waited t.detected_wait_since input_watchdog_ms now

  abbrev pub is_stuck : ℕ → TaskRecord → Bool
  is_stuck now t =
      is_awaiting t.status
      && (not t.approval_channel && has_waited t.awaiting_since blocked_after_ms now)

  -- The change of one record, as every look-up sees it.
  find-saved :
      (m : BackgroundManager) (id : Text) (t u : TaskRecord)
      → u.id ≡ t.id
      → find id (save u m.tasks) ≡ (if text_eq id t.id then some u else find id m.tasks)
  find-saved m id t u i =
      find-save id u m.tasks ∙ ap (λ j. if text_eq id j then some u else find id m.tasks) i

  find-block :
      (m : BackgroundManager) (id : Text) (t : TaskRecord) (now : ℕ)
      → find t.id m.tasks ≡ some t
      → find id (block next_id m t now).tasks ≡ (
          if text_eq id t.id
          then some (if is_stuck now t then suspended t else t)
          else find id m.tasks)
  unfolding block notify suspended
  find-block m id t now c = elim (Bool-cases (is_stuck now t)) [
    | inl e ↦ rw e (find-saved m id t (suspended t) refl)
    | inr e ↦ rw e (ground (arith, c, text_eq→eq id t.id))
  ]

  promoted : ℕ → TaskRecord → TaskRecord
  promoted now t = if is_due now t then awaiting t watchdog_request now else t

  promoted-id : (t : TaskRecord) (now : ℕ) → (promoted now t).id ≡ t.id
  unfolding promoted awaiting
  promoted-id t now = if_both (λ (u : TaskRecord). u.id ≡ t.id) (is_due now t) refl refl

  find-promote :
      (m : BackgroundManager) (id : Text) (t : TaskRecord) (now : ℕ)
      → find t.id m.tasks ≡ some t
      → find id (promote next_id m t now).tasks
        ≡ (if text_eq id t.id then some (promoted now t) else find id m.tasks)
  unfolding promote enter_awaiting_input notify promoted awaiting
  find-promote m id t now c = elim (Bool-cases (is_due now t)) [
    | inl e ↦
        rw (e, (running_status t.status (and-true _ _ e).0).0)
          (find-saved m id t (awaiting t watchdog_request now) refl)
    | inr e ↦ rw e (ground (arith, c, text_eq→eq id t.id))
  ]

  and-false : (a b : Bool) → b ≡ false → a && b ≡ false
  and-false a b h = ground (arith, h)

  -- A task that has just been asked for its input has not waited for five minutes yet.
  watched_lem :
      (t : TaskRecord) (now : ℕ)
      → (if is_stuck now (promoted now t) then suspended (promoted now t) else promoted now t)
        ≡ watched now t
  unfolding watched promoted awaiting
  watched_lem t now = elim (Bool-cases (is_due now t)) [
    | inl e ↦ rw (e, and-false (not t.approval_channel) _ (not_waited now)) refl
    | inr e ↦ rw e refl
  ]

  with_task_at :
      (m : BackgroundManager) (id : Text) (t : TaskRecord) (act : TaskRecord → BackgroundManager)
      → find id m.tasks ≡ some t
      → with_task m id act ≡ act t
  with_task_at m id t act e = rw (e, with_task) refl

  found_promoted :
      (m : BackgroundManager) (j : Text) (t : TaskRecord) (now : ℕ)
      → find j m.tasks ≡ some t
      → find j (promote next_id m t now).tasks ≡ some (promoted now t)
  found_promoted m j t now e =
      find-promote m j t now (current m j t e) ∙ rw (find-id j m.tasks t e, text_eq_refl j) refl

  find-watch :
      (m : BackgroundManager) (id j : Text) (now : ℕ)
      → find id (watch next_id m j now).tasks
        ≡ (if text_eq id j then watched_at now (find id m.tasks) else find id m.tasks)
  unfolding watch
  find-watch m id j now = elim (Option-cases (find j m.tasks)) [
    | inl e ↦ rw (e, with_task, e) (ground (arith, e, text_eq→eq id j))
    | inr (t, e) ↦
        let n = promote next_id m t now in
        let u = promoted now t in
        let i = find-id j m.tasks t e in
        let same = promoted-id t now ∙ i in
        let found : find j n.tasks ≡ some u = found_promoted m j t now e in
        let first = with_task_at m j t (λ t. promote next_id m t now) e in
        let second : watch next_id m j now ≡ block next_id n u now =
          ap (λ k. with_task k j λ t. block next_id k t now) first
          ∙ with_task_at n j u (λ t. block next_id n t now) found in
        ap (λ k. find id k.tasks) second
        ∙ find-block n id u now (ap (λ i. find i n.tasks) same ∙ found)
        ∙ ground (
          arith,
          same,
          i,
          watched_lem t now,
          find-promote m id t now (current m j t e),
          e,
          text_eq→eq id j,
        )
  ]

  watched_twice : (t : TaskRecord) (now : ℕ) → watched now (watched now t) ≡ watched now t
  unfolding watched awaiting suspended
  watched_twice t now = elim (Bool-cases (is_due now t)) [
    | inl e ↦ rw (e, and-false (not t.approval_channel) _ (not_waited now)) refl
    | inr e ↦ elim (Bool-cases (is_stuck now t)) [
      | inl f ↦ rw (e, f) refl
      | inr f ↦ rw (e, f, e, f) refl
    ]
  ]

  watched_at_twice :
      (o : Option TaskRecord) (now : ℕ) → watched_at now (watched_at now o) ≡ watched_at now o
  watched_at_twice none now = refl
  watched_at_twice (some t) now = ap some (watched_twice t now)

  once_or_twice :
      (a b : Bool) (o : Option TaskRecord) (now : ℕ)
      → (if b
          then watched_at now (if a then watched_at now o else o)
          else (if a then watched_at now o else o))
        ≡ (if a || b then watched_at now o else o)
  once_or_twice true true o now = watched_at_twice o now
  once_or_twice true false o now = refl
  once_or_twice false true o now = refl
  once_or_twice false false o now = refl

  find-watch_all :
      (m : BackgroundManager) (ids : List Text) (id : Text) (now : ℕ)
      → find id (watch_all next_id m ids now).tasks
        ≡ (if includes ids id then watched_at now (find id m.tasks) else find id m.tasks)
  unfolding watch_all
  find-watch_all m [] id now = refl
  find-watch_all m (j ∷ ids) id now =
      find-watch_all (watch next_id m j now) ids id now
      ∙ ap (λ o. if includes ids id then watched_at now o else o) (find-watch m id j now)
      ∙ once_or_twice (text_eq id j) (includes ids id) (find id m.tasks) now

  find-missing :
      (ts : List TaskRecord) (id : Text)
      → includes (map (λ t. t.id) ts) id ≡ false
      → find id ts ≡ none
  unfolding find
  find-missing [] id h = refl
  find-missing (t ∷ ts) id h = ground (arith, find-missing ts id, h)

  pub find-check_watchdogs :
      (m : BackgroundManager) (id : Text) (now : ℕ)
      → find id (check_watchdogs next_id m now).tasks ≡ watched_at now (find id m.tasks)
  unfolding check_watchdogs
  find-check_watchdogs m id now =
      find-watch_all m (map (λ t. t.id) m.tasks) id now
      ∙ elim (Bool-cases (includes (map (λ t. t.id) m.tasks) id)) [
        | inl e ↦ rw e refl
        | inr e ↦ rw (e, find-missing m.tasks id e) refl
      ]
