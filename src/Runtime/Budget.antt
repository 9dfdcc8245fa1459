-- ===== src/Runtime/Budget.antt =====
-- packages/runtime/src/budget.ts: the limits of one turn and the detection of stuck loops. A method
-- of `BudgetTracker` maps the tracker to its verdict and the tracker that it leaves; `nowMs()` is
-- an argument. `snapshot` is left out: it reads the fields.
pub mod Limits
pub mod Loops
pub mod Cycles
use qwen_harness.Prelude.{
  ℕ, zero, suc, ◌+◌, ◌-◌, ◌*◌, ◌%◌, Bool, true, false, not, ◌&&◌, ◌||◌, List, [], ◌∷◌, ◌++◌, Option,
  none, some, Text, text_eq, if◌then◌else◌, leb, ltb, length, drop, take, all, any, get_elem?,
}
use qwen_harness.Protocol.{TerminationReason}

pub record BudgetLimits : Type 0 where
  pub max_turns : ℕ
  pub max_model_calls_per_turn : ℕ
  pub max_tool_calls_per_turn : ℕ
  pub max_wall_ms : ℕ
  pub max_retries : ℕ
  pub max_no_progress_rounds : ℕ
  pub max_repeated_identical_calls : ℕ

abbrev pub default_budget : BudgetLimits
default_budget = record {
  max_turns = 200;
  max_model_calls_per_turn = 100;
  max_tool_calls_per_turn = 1000;
  max_wall_ms = 8 * 60 * 60 * 1000;
  max_retries = 10;
  max_no_progress_rounds = 3;
  max_repeated_identical_calls = 3;
}

abbrev pub oscillation_cycles : ℕ
oscillation_cycles = 3

abbrev pub max_cycle_len : ℕ
max_cycle_len = 3

pub data BudgetVerdict : Type 0 where
  stop : (reason : TerminationReason) → BudgetVerdict
  continue' : BudgetVerdict

pub record BudgetTracker : Type 0 where
  pub limits : BudgetLimits
  pub start_ms : ℕ
  pub model_calls : ℕ
  pub tool_calls : ℕ
  pub retries : ℕ
  pub no_progress_rounds : ℕ
  pub last_call_signature : Option Text
  pub repeated_count : ℕ
  pub recent_signatures : List Text

unfoldable pub new_tracker : BudgetLimits → ℕ → BudgetTracker
new_tracker limits now = record {
  limits = limits;
  start_ms = now;
  model_calls = 0;
  tool_calls = 0;
  retries = 0;
  no_progress_rounds = 0;
  last_call_signature = none;
  repeated_count = 0;
  recent_signatures = [];
}

-- `now - start >= limit`, with the subtraction moved to the other side.
unfoldable pub before_model_call : BudgetTracker → ℕ → BudgetVerdict × BudgetTracker
before_model_call t now =
    if leb (t.start_ms + t.limits.max_wall_ms) now
    then (stop TerminationReason.time_limit, t)
    else if leb t.limits.max_model_calls_per_turn t.model_calls
    then (stop TerminationReason.model_call_limit, t)
    else (continue', record t { model_calls = suc t.model_calls })

unfoldable pub before_tool_call : BudgetTracker → BudgetVerdict × BudgetTracker
before_tool_call t =
    if leb t.limits.max_tool_calls_per_turn t.tool_calls
    then (stop TerminationReason.tool_call_limit, t)
    else (continue', record t { tool_calls = suc t.tool_calls })

unfoldable pub record_retry : BudgetTracker → BudgetVerdict × BudgetTracker
record_retry t =
    let next = record t { retries = suc t.retries } in
    if ltb t.limits.max_retries next.retries
    then (stop TerminationReason.retry_limit, next)
    else (continue', next)

unfoldable pub after_model_round : BudgetTracker → Bool → BudgetVerdict × BudgetTracker
after_model_round t true = (continue', record t { no_progress_rounds = 0 })
after_model_round t false =
    let next = record t { no_progress_rounds = suc t.no_progress_rounds } in
    if leb t.limits.max_no_progress_rounds next.no_progress_rounds
    then (stop TerminationReason.no_progress, next)
    else (continue', next)

-- The source separates the two parts with a NUL character.
unfoldable pub signature_of : Text → Text → Text
signature_of tool_name arguments_json = tool_name ++ 0 ∷ arguments_json

-- `signature === this.#lastCallSignature`, false on null
abbrev pub same_as_last : Option Text → Text → Bool
same_as_last none signature = false
same_as_last (some last) signature = text_eq signature last

-- `push`, then `shift` if there are more than the cycles need.
unfoldable pub remember : List Text → Text → List Text
remember recent signature =
    let pushed = recent ++ signature ∷ [] in
    if ltb (max_cycle_len * oscillation_cycles) (length pushed) then drop 1 pushed else pushed

-- `s.slice(-n)`
abbrev pub last_n {ℓ} : {A : Type ℓ} → ℕ → List A → List A
last_n n s = drop (length s - n) s

-- `new Set(xs).size < 2`
unfoldable pub all_same : List Text → Bool
all_same [] = true
all_same (x ∷ xs) = all (text_eq x) xs

-- `window.every((sig, i) => sig === cycle[i % k])`, with `i` the index of the first element
unfoldable pub follows : ℕ → List Text → ℕ → List Text → Bool
follows k cycle i [] = true
follows k cycle i (sig ∷ window) =
    same_as_last (get_elem? cycle (i % k)) sig && follows k cycle (suc i) window

-- The loop's body at the cycle length `k`.
unfoldable pub oscillates_at : ℕ → List Text → Bool
unfolding all_same follows
oscillates_at k s =
    let need = k * oscillation_cycles in
    let window = last_n need s in
    let cycle = take k window in
    not (ltb (length s) need) && (not (all_same cycle) && follows k cycle 0 window)

-- The lengths from 2 to max_cycle_len.
unfoldable pub oscillating : List Text → Bool
unfolding oscillates_at
oscillating s = any (λ k. oscillates_at k s) (2 ∷ 3 ∷ [])

-- What follows the check of repeated calls.
unfoldable pub watch_oscillation : BudgetTracker → Text → BudgetVerdict × BudgetTracker
unfolding remember oscillating
watch_oscillation t signature =
    let next = record t { recent_signatures = remember t.recent_signatures signature } in
    if oscillating next.recent_signatures
    then (stop TerminationReason.oscillation, next)
    else (continue', next)

unfoldable pub observe_tool_call : BudgetTracker → Text → Text → BudgetVerdict × BudgetTracker
unfolding signature_of watch_oscillation
observe_tool_call t tool_name arguments_json =
    let signature = signature_of tool_name arguments_json in
    let again = record t { repeated_count = suc t.repeated_count } in
    if same_as_last t.last_call_signature signature
    then (if leb t.limits.max_repeated_identical_calls again.repeated_count
        then (stop TerminationReason.repeated_identical_calls, again)
        else watch_oscillation again signature)
    else watch_oscillation (record t { last_call_signature = some signature; repeated_count = 1 })
        signature
