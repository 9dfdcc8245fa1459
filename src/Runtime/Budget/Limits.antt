-- ===== src/Runtime/Budget/Limits.antt =====
-- packages/runtime/src/budget.ts: the checks of one turn, in any order, up to the first that stops it.
use qwen_harness.Prelude.{
  ℕ, suc, ◌+◌, ◌≤◌, Bool, true, false, List, [], ◌∷◌, ◌≡◌, arith, Text, leb_false→lt, ltb_false→le,
  leb, ltb, Bool-cases, inl, inr, some,
}
use qwen_harness.Runtime.Budget.{
  BudgetLimits, BudgetTracker, BudgetVerdict, stop, continue', new_tracker, before_model_call,
  before_tool_call, record_retry, after_model_round, observe_tool_call, watch_oscillation, remember,
  oscillating, signature_of, same_as_last,
}

-- One call of a method of the tracker.
pub data TurnEvent : Type 0 where
  model_call : (now : ℕ) → TurnEvent
  tool_call : TurnEvent
  retry : TurnEvent
  model_round : (made_progress : Bool) → TurnEvent
  tool_observed : (tool_name arguments_json : Text) → TurnEvent

unfoldable pub on_event : BudgetTracker → TurnEvent → BudgetVerdict × BudgetTracker
unfolding before_model_call before_tool_call record_retry after_model_round observe_tool_call
on_event t (model_call now) = before_model_call t now
on_event t tool_call = before_tool_call t
on_event t retry = record_retry t
on_event t (model_round made_progress) = after_model_round t made_progress
on_event t (tool_observed tool_name arguments_json) = observe_tool_call t tool_name arguments_json

-- A verdict that stops ends the turn.
abbrev pub unless_stopped :
    BudgetVerdict × BudgetTracker → (BudgetTracker → BudgetVerdict) → BudgetVerdict
unless_stopped (stop reason, t) rest = stop reason
unless_stopped (continue', t) rest = rest t

unfoldable pub run_events : List TurnEvent → BudgetTracker → BudgetVerdict
unfolding on_event
run_events [] t = continue'
run_events (e ∷ es) t = unless_stopped (on_event t e) (run_events es)

abbrev pub model_calls_in : List TurnEvent → ℕ
model_calls_in [] = 0
model_calls_in (model_call now ∷ es) = suc (model_calls_in es)
model_calls_in (_ ∷ es) = model_calls_in es

abbrev pub tool_calls_in : List TurnEvent → ℕ
tool_calls_in [] = 0
tool_calls_in (tool_call ∷ es) = suc (tool_calls_in es)
tool_calls_in (_ ∷ es) = tool_calls_in es

abbrev pub retries_in : List TurnEvent → ℕ
retries_in [] = 0
retries_in (retry ∷ es) = suc (retries_in es)
retries_in (_ ∷ es) = retries_in es

-- What is left of the three allowances.
abbrev HasRoom : BudgetTracker → List TurnEvent → Type 0
HasRoom t es =
    (t.model_calls + model_calls_in es ≤ t.limits.max_model_calls_per_turn)
    × (t.tool_calls + tool_calls_in es ≤ t.limits.max_tool_calls_per_turn)
    × (t.retries + retries_in es ≤ t.limits.max_retries)

abbrev HasCounts : BudgetTracker → Type 0
HasCounts t = HasRoom t []

-- An event that does not stop the turn stays within the allowances.
abbrev Carries : BudgetTracker → TurnEvent → List TurnEvent → BudgetVerdict × BudgetTracker → Type 0
Carries t e es (stop reason, t') = Unit
Carries t e es (continue', t') = HasCounts t → HasCounts t' × (HasRoom t' es → HasRoom t (e ∷ es))

-- The watch on cycles leaves the counts alone.
watch_oscillation-Carries :
    (t u : BudgetTracker) (e : TurnEvent) (es : List TurnEvent) (signature : Text)
    → ((recent : List Text)
        → HasCounts t
        → HasCounts (record u { recent_signatures = recent })
          × (HasRoom (record u { recent_signatures = recent }) es → HasRoom t (e ∷ es)))
    → Carries t e es (watch_oscillation u signature)
unfolding watch_oscillation
watch_oscillation-Carries t u e es signature fine =
    let recent = remember u.recent_signatures signature in
    elim (Bool-cases (oscillating recent)) [
      | inl turns ↦ rw turns _
      | inr fresh ↦ rw fresh (fine recent)
    ]

on_event-Carries :
    (t : BudgetTracker) (e : TurnEvent) (es : List TurnEvent) → Carries t e es (on_event t e)
unfolding on_event before_model_call before_tool_call record_retry after_model_round
    observe_tool_call
on_event-Carries t (model_call now) es =
    elim (Bool-cases (leb (t.start_ms + t.limits.max_wall_ms) now)) [
      | inl late ↦ rw late _
      | inr early ↦ elim (Bool-cases (leb t.limits.max_model_calls_per_turn t.model_calls)) [
        | inl full ↦ rw (early, full) _
        | inr free ↦
            rw (early, free)
              (λ h. (
                (omega (arith, leb_false→lt _ _ free), h.1, h.2),
                λ r. (omega (arith, r.0), r.1, r.2),
              ))
      ]
    ]
on_event-Carries t tool_call es =
    elim (Bool-cases (leb t.limits.max_tool_calls_per_turn t.tool_calls)) [
      | inl full ↦ rw full _
      | inr free ↦ rw free (λ h.
          ((h.0, omega (arith, leb_false→lt _ _ free), h.2), λ r. (r.0, omega (arith, r.1), r.2)))
    ]
on_event-Carries t retry es = elim (Bool-cases (ltb t.limits.max_retries (suc t.retries))) [
  | inl full ↦ rw full _
  | inr free ↦
      rw free (λ h.
        ((h.0, h.1, omega (arith, ltb_false→le _ _ free)), λ r. (r.0, r.1, omega (arith, r.2))))
]
on_event-Carries t (model_round true) es = λ h. (h, λ r. r)
on_event-Carries t (model_round false) es =
    elim (Bool-cases (leb t.limits.max_no_progress_rounds (suc t.no_progress_rounds))) [
      | inl stuck ↦ rw stuck _
      | inr moves ↦ rw moves (λ h. (h, λ r. r))
    ]
on_event-Carries t (tool_observed tool_name arguments_json) es =
    let signature = signature_of tool_name arguments_json in
    elim (Bool-cases (same_as_last t.last_call_signature signature)) [
      | inr other ↦ rw other (
          watch_oscillation-Carries t
            (record t { last_call_signature = some signature; repeated_count = 1 })
            (tool_observed tool_name arguments_json) es signature (λ recent h. (h, λ r. r)))
      | inl same ↦
          elim (Bool-cases (leb t.limits.max_repeated_identical_calls (suc t.repeated_count))) [
            | inl stuck ↦ rw (same, stuck) _
            | inr fine ↦
                rw (same, fine)
                  (watch_oscillation-Carries t (record t { repeated_count = suc t.repeated_count })
                    (tool_observed tool_name arguments_json) es signature (λ recent h. (h, λ r. r)))
          ]
    ]

run_from :
    (e : TurnEvent) (es : List TurnEvent) (t : BudgetTracker)
    → ((t' : BudgetTracker) → HasCounts t' → run_events es t' ≡ continue' → HasRoom t' es)
    → (r : BudgetVerdict × BudgetTracker) → Carries t e es r
    → HasCounts t
    → unless_stopped r (run_events es) ≡ continue'
    → HasRoom t (e ∷ es)
run_from e es t later (stop reason, t') c h k = cc
run_from e es t later (continue', t') c h k = let (h', back) = c h in back (later t' h' k)

run_events-HasRoom :
    (es : List TurnEvent) (t : BudgetTracker)
    → HasCounts t
    → run_events es t ≡ continue'
    → HasRoom t es
unfolding run_events
run_events-HasRoom [] t h k = h
run_events-HasRoom (e ∷ es) t h k =
    run_from e es t (run_events-HasRoom es) (on_event t e) (on_event-Carries t e es) h k

-- A turn that no check has stopped, with its events in any order, made at most as many model calls,
-- tool calls and retries as the limits allow.
pub run_events-bounded :
    (limits : BudgetLimits) (now : ℕ) (es : List TurnEvent)
    → run_events es (new_tracker limits now) ≡ continue'
    → (model_calls_in es ≤ limits.max_model_calls_per_turn)
      × (tool_calls_in es ≤ limits.max_tool_calls_per_turn)
      × (retries_in es ≤ limits.max_retries)
unfolding new_tracker
run_events-bounded limits now es h =
    let room =
      run_events-HasRoom es (new_tracker limits now) (omega arith, omega arith, omega arith) h in
    (omega (arith, room.0), omega (arith, room.1), omega (arith, room.2))
