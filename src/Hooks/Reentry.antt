-- ===== src/Hooks/Reentry.antt =====
-- packages/hooks/src/engine.ts: `run`, and the guard against a Stop while a Stop is handled. The runs
-- are asynchronous, so that others may start and end while one is in flight.
use qwen_harness.Prelude.{
  ℕ, ◌+◌, Bool, true, false, ◌&&◌, List, [], ◌∷◌, ◌++◌, Option, none, some, Text, str, ◌≡◌, refl,
  arith, if◌then◌else◌,
}
use qwen_harness.Policy.Effect.{Outcome}
use qwen_harness.Hooks.Outcome.{
  HookEvent, is_stop, HandlerResult, HandlerForm, RecordedOutcome, FoldedHookResult,
}
use qwen_harness.Hooks.Registration.{HookRegistration}
use qwen_harness.Hooks.Fold.{run_inner}

-- `#stopInProgress`, and the events whose runs have not ended.
pub record HookEngine : Type 0 where
  pub stop_in_progress : Bool
  pub in_flight : List HookEvent

abbrev pub new_engine : HookEngine
new_engine = record { stop_in_progress = false; in_flight = [] }

unfoldable pub refused_stop_result : HookEvent → Outcome → FoldedHookResult
unfolding str
refused_stop_result event base = record {
  event = event;
  ran_handlers = 0;
  blocked = false;
  block_reason = none;
  decision = base;
  decision_changed = false;
  modifications = [];
  modified_input = none;
  injected_context = [];
  stopped = false;
  stop_reason = none;
  result_durable = false;
  annotations = [];
  ignored_elevations = [];
  failures = [];
  stop_reentry_refused = true;
  audit =
      record {
        hook_id = str "<engine>";
        form = HandlerForm.engine;
        outcome = RecordedOutcome.skipped;
      }
      ∷ [];
}

-- Whether the guard refuses a run.
unfoldable pub is_refused : HookEngine → HookEvent → Bool
is_refused s event = is_stop event && s.stop_in_progress

-- The engine when a run has passed the guard.
unfoldable pub entered : HookEngine → HookEvent → HookEngine
entered s event = record {
  stop_in_progress = if is_stop event then true else s.stop_in_progress;
  in_flight = event ∷ s.in_flight;
}

-- The engine behind the `finally` of a run that passed the guard, with the other runs in flight.
unfoldable pub left : HookEngine → HookEvent → List HookEvent → HookEngine
left s event others = record {
  stop_in_progress = if is_stop event then false else s.stop_in_progress;
  in_flight = others;
}

-- A run that nothing else comes between. `context.currentDecision ?? 'allow'`
unfoldable pub run :
    (Text → Text × Bool)
    → (HookRegistration → HandlerResult)
    → HookEngine
    → HookEvent
    → Option Outcome
    → List HookRegistration
    → FoldedHookResult × HookEngine
unfolding is_refused refused_stop_result entered left run_inner
run sanitize invoke s event current registrations =
    let base : Outcome = elim current [ none ↦ Outcome.allow | some d ↦ d ] in
    if is_refused s event then (refused_stop_result event base, s) else (
      run_inner sanitize event invoke base registrations,
      left (entered s event) event s.in_flight,
    )

-- What may happen to an engine: a run is refused, passes the guard, or ends.
pub data EngineStep : HookEngine → HookEngine → Type 0 where
  refuse : (s : HookEngine) (event : HookEvent) → is_refused s event ≡ true → EngineStep s s
  enter :
      (s : HookEngine) (event : HookEvent)
      → is_refused s event ≡ false
      → EngineStep s (entered s event)
  leave :
      (s : HookEngine) (xs : List HookEvent) (event : HookEvent) (ys : List HookEvent)
      → s.in_flight ≡ xs ++ event ∷ ys
      → EngineStep s (left s event (xs ++ ys))

pub data Reachable : HookEngine → Type 0 where
  initial : Reachable new_engine
  next : {s t : HookEngine} → Reachable s → EngineStep s t → Reachable t

abbrev pub stop_count : List HookEvent → ℕ
stop_count [] = 0
stop_count (e ∷ es) = (if is_stop e then 1 else 0) + stop_count es

stop_count-append : (xs ys : List HookEvent) → stop_count (xs ++ ys) ≡ stop_count xs + stop_count ys
stop_count-append [] ys = omega arith
stop_count-append (x ∷ xs) ys = omega (arith, stop_count-append xs ys)

-- The flag says whether a Stop is in flight.
abbrev IsGuarded : HookEngine → Type 0
IsGuarded s = stop_count s.in_flight ≡ (if s.stop_in_progress then 1 else 0)

step-IsGuarded : {s t : HookEngine} → IsGuarded s → EngineStep s t → IsGuarded t
unfolding is_refused entered left
step-IsGuarded h (EngineStep.refuse s event r) = h
step-IsGuarded h (EngineStep.enter s event r) = ground (arith, h, r)
step-IsGuarded h (EngineStep.leave s xs event ys e) =
    let both = stop_count-append xs (event ∷ ys) in
    let rest = stop_count-append xs ys in let h' = rw e at h in ground (arith, h', both, rest)

-- However the runs of an engine start and end, the flag is up exactly while a Stop is in flight, and
-- there is one such run then.
pub Reachable-IsGuarded :
    {s : HookEngine} → Reachable s → stop_count s.in_flight ≡ (if s.stop_in_progress then 1 else 0)
Reachable-IsGuarded Reachable.initial = refl
Reachable-IsGuarded (Reachable.next r st) = step-IsGuarded (Reachable-IsGuarded r) st
