-- ===== src/Runtime/Budget/Loops.antt =====
-- packages/runtime/src/budget.ts: the stuck loops that the tracker looks for.
use qwen_harness.Prelude.{
  ℕ, zero, suc, ◌+◌, ◌≤◌, max, true, false, List, [], ◌∷◌, ◌≡◌, refl, arith, Text, Bool-cases, inl,
  inr, ◌⊎◌, some, none, Option, ap, sym, text_eq→eq, leb, leb_false→lt, text_eq_refl,
}
use qwen_harness.Protocol.{TerminationReason}
use qwen_harness.Runtime.Budget.{
  BudgetTracker, BudgetVerdict, stop, continue', after_model_round, observe_tool_call,
  watch_oscillation, remember, oscillating, signature_of, same_as_last,
}
use qwen_harness.Runtime.Budget.Limits.{
  TurnEvent, model_round, tool_observed, on_event, unless_stopped, run_events,
}

-- The same event, time after time.
abbrev pub times : ℕ → TurnEvent → List TurnEvent
times zero e = []
times (suc n) e = e ∷ times n e

abbrev pub IsStop : BudgetVerdict → Type 0
IsStop v = (reason : TerminationReason) × (v ≡ stop reason)

idle_from :
    (n : ℕ) (t : BudgetTracker)
    → 1 ≤ n
    → t.limits.max_no_progress_rounds ≤ t.no_progress_rounds + n
    → run_events (times n (model_round false)) t ≡ stop TerminationReason.no_progress
unfolding run_events on_event after_model_round
idle_from zero t p h = ground arith
idle_from (suc n) t p h =
    elim (Bool-cases (leb t.limits.max_no_progress_rounds (suc t.no_progress_rounds))) [
      | inl stuck ↦ rw stuck refl
      | inr moves ↦
          let more = leb_false→lt _ _ moves in
          rw moves (
            idle_from n (record t { no_progress_rounds = suc t.no_progress_rounds })
              (omega (arith, more, h)) (omega (arith, h)))
    ]

-- From any state, as many rounds without progress as the limit allows (and at least one) stop the
-- turn with the reason no_progress.
idle_rounds_stop :
    (t : BudgetTracker) (n : ℕ)
    → max 1 t.limits.max_no_progress_rounds ≤ n
    → run_events (times n (model_round false)) t ≡ stop TerminationReason.no_progress
idle_rounds_stop t n h = idle_from n t (omega (arith, h)) (omega (arith, h))

-- What stands after the watch either has stopped or goes on from a tracker with these counts.
abbrev Watched : BudgetTracker → BudgetVerdict × BudgetTracker → Type 0
Watched u r =
    IsStop r.0 ⊎ ((recent : List Text) × (r ≡ (continue', record u { recent_signatures = recent })))

watch_oscillation-Watched :
    (u : BudgetTracker) (signature : Text) → Watched u (watch_oscillation u signature)
unfolding watch_oscillation
watch_oscillation-Watched u signature =
    let recent = remember u.recent_signatures signature in
    elim (Bool-cases (oscillating recent)) [
      | inl turns ↦ inl (TerminationReason.oscillation, rw turns refl)
      | inr fresh ↦ inr (recent, rw fresh refl)
    ]

same_as_last-some :
    (last : Option Text) (signature : Text)
    → same_as_last last signature ≡ true
    → last ≡ some signature
same_as_last-some none signature h = cc
same_as_last-some (some last) signature h = ap some (sym (text_eq→eq signature last h))

Watched-IsStop :
    (u : BudgetTracker) (r : BudgetVerdict × BudgetTracker) (rest : BudgetTracker → BudgetVerdict)
    → Watched u r
    → ((recent : List Text) → IsStop (rest (record u { recent_signatures = recent })))
    → IsStop (unless_stopped r rest)
Watched-IsStop u (stop reason, t) rest w later = (reason, refl)
Watched-IsStop u (continue', t) rest (inl (reason, halted)) later = (reason, cc)
Watched-IsStop u (continue', t) rest (inr (recent, goes)) later =
    let e : t ≡ record u { recent_signatures = recent } = cc in rw e (later recent)

module _ (tool_name arguments_json : Text) where
  again_from :
      (n : ℕ) (t : BudgetTracker)
      → 1 ≤ n
      → t.last_call_signature ≡ some (signature_of tool_name arguments_json)
      → t.limits.max_repeated_identical_calls ≤ t.repeated_count + n
      → IsStop (run_events (times n (tool_observed tool_name arguments_json)) t)
  unfolding run_events on_event observe_tool_call
  again_from zero t p last h = (TerminationReason.oscillation, ground arith)
  again_from (suc n) t p last h =
      let signature = signature_of tool_name arguments_json in
      let same : same_as_last t.last_call_signature signature ≡ true =
        rw last (text_eq_refl signature) in
      let u = record t { repeated_count = suc t.repeated_count } in
      elim (Bool-cases (leb t.limits.max_repeated_identical_calls (suc t.repeated_count))) [
        | inl stuck ↦ (TerminationReason.repeated_identical_calls, rw (same, stuck) refl)
        | inr fine ↦
            let more = leb_false→lt _ _ fine in
            rw (same, fine)
              (Watched-IsStop u (watch_oscillation u signature)
                (run_events (times n (tool_observed tool_name arguments_json)))
                (watch_oscillation-Watched u signature)
                (λ recent.
                  again_from n (record u { recent_signatures = recent }) (omega (arith, more, h))
                    last (omega (arith, h))))
      ]

  -- From any state, observing one and the same call as often as the limit says, and at least
  -- twice, stops the turn.
  pub repeated_calls-IsStop :
      (t : BudgetTracker) (n : ℕ)
      → max 2 t.limits.max_repeated_identical_calls ≤ n
      → IsStop (run_events (times n (tool_observed tool_name arguments_json)) t)
  unfolding run_events on_event observe_tool_call
  repeated_calls-IsStop t zero h = (TerminationReason.oscillation, ground arith)
  repeated_calls-IsStop t (suc n) h =
      let signature = signature_of tool_name arguments_json in
      let u = record t { last_call_signature = some signature; repeated_count = 1 } in
      elim (Bool-cases (same_as_last t.last_call_signature signature)) [
        | inr other ↦ rw other (
            Watched-IsStop u (watch_oscillation u signature)
              (run_events (times n (tool_observed tool_name arguments_json)))
              (watch_oscillation-Watched u signature)
              (λ recent.
                again_from n (record u { recent_signatures = recent }) (omega (arith, h)) refl
                  (omega (arith, h))))
        | inl same ↦
            again_from (suc n) t (omega arith)
              (same_as_last-some t.last_call_signature signature same) (omega (arith, h))
      ]
