-- ===== src/Background/Table.antt =====
-- packages/background/src/manager.ts and runner.ts: the record of a task, its view, and the map of the tasks,
-- which is the list of its records in the order in which they were set.
use qwen_harness.Prelude.{
  ℕ, ◌+◌, ◌≡◌, refl, ◌∙◌, Bool, true, false, not, ◌&&◌, List, [], ◌∷◌, ◌++◌, Option, none, some,
  Text, str, text_eq, text_eq→eq, text_eq_refl, arith, Bool-cases, inl, inr, if◌then◌else◌,
}
use qwen_harness.Protocol.{Actor}
use qwen_harness.Policy.Authority.{Authority}
use qwen_harness.Background.{BackgroundCategory, Placement}

pub data TaskStatus : Type 0 where
  queued running awaiting_input blocked succeeded failed cancelled : TaskStatus

abbrev pub is_terminal_status : TaskStatus → Bool
is_terminal_status succeeded = true
is_terminal_status failed = true
is_terminal_status cancelled = true
is_terminal_status _ = false

-- `status === 'queued'`
abbrev pub is_queued : TaskStatus → Bool
is_queued queued = true
is_queued _ = false

-- `status === 'running'`
abbrev pub is_running : TaskStatus → Bool
is_running running = true
is_running _ = false

-- `status === 'awaiting_input'`
abbrev pub is_awaiting : TaskStatus → Bool
is_awaiting awaiting_input = true
is_awaiting _ = false

-- `status === 'blocked'`
abbrev pub is_blocked : TaskStatus → Bool
is_blocked blocked = true
is_blocked _ = false

abbrev pub is_foreground : Placement → Bool
is_foreground Placement.foreground = true
is_foreground Placement.background = false

pub record InputRequest : Type 0 where
  pub prompt : Text
  pub secret : Bool

-- An exit code is not negative.
pub record RunnerExit : Type 0 where
  pub ok : Bool
  pub code : Option ℕ
  pub reason : Option Text

-- The opaque payload is a text, and a promise that waits is its number. Of the runner's control the
-- record keeps whether there is one.
pub record TaskRecord : Type 0 where
  pub id : Text
  pub category : BackgroundCategory
  pub placement : Placement
  pub owner : Actor
  pub tool_call_id : Option Text
  pub permission_context : Authority
  pub payload : Text
  pub approval_channel : Bool
  pub status : TaskStatus
  pub control : Bool
  pub output_bytes : ℕ
  pub output_preview : Text
  pub output_truncated : Bool
  pub output_warned : Bool
  pub last_input_request : Option InputRequest
  pub awaiting_since : Option ℕ
  pub detected_wait_since : Option ℕ
  pub created_at : ℕ
  pub started_at : Option ℕ
  pub ended_at : Option ℕ
  pub exit : Option RunnerExit
  pub waiters : List ℕ

pub record BackgroundTaskView : Type 0 where
  pub id : Text
  pub category : BackgroundCategory
  pub placement : Placement
  pub owner : Actor
  pub tool_call_id : Option Text
  pub permission_context : Authority
  pub status : TaskStatus
  pub output_bytes : ℕ
  pub output_preview : Text
  pub output_ref : Text
  pub output_truncated : Bool
  pub output_warned : Bool
  pub last_input_request : Option InputRequest
  pub created_at : ℕ
  pub started_at : Option ℕ
  pub ended_at : Option ℕ
  pub exit : Option RunnerExit

abbrev pub view : TaskRecord → BackgroundTaskView
view t = record {
  id = t.id;
  category = t.category;
  placement = t.placement;
  owner = t.owner;
  tool_call_id = t.tool_call_id;
  permission_context = t.permission_context;
  status = t.status;
  output_bytes = t.output_bytes;
  output_preview = t.output_preview;
  output_ref = str "bgout_" ++ t.id;
  output_truncated = t.output_truncated;
  output_warned = t.output_warned;
  last_input_request = t.last_input_request;
  created_at = t.created_at;
  started_at = t.started_at;
  ended_at = t.ended_at;
  exit = t.exit;
}

-- `this.#tasks.get(id)`
unfoldable pub find : Text → List TaskRecord → Option TaskRecord
find id [] = none
find id (t ∷ ts) = if text_eq id t.id then some t else find id ts

-- `this.#tasks.set(task.id, task)`, and an assignment to a field of the record with this id.
unfoldable pub save : TaskRecord → List TaskRecord → List TaskRecord
save t [] = t ∷ []
save t (u ∷ us) = if text_eq t.id u.id then t ∷ us else u ∷ save t us

-- A task that holds one of the slots of the foreground.
abbrev pub holds_slot : TaskRecord → Bool
holds_slot t =
    is_foreground t.placement && (not (is_terminal_status t.status) && not (is_queued t.status))

-- `n += 1` under the test
abbrev pub count_if : Bool → ℕ
count_if true = 1
count_if false = 0

unfoldable pub foreground_running : List TaskRecord → ℕ
foreground_running [] = 0
foreground_running (t ∷ ts) = count_if (holds_slot t) + foreground_running ts

pub find-id : (id : Text) (ts : List TaskRecord) (t : TaskRecord) → find id ts ≡ some t → t.id ≡ id
unfolding find
find-id id [] t h = cc
find-id id (u ∷ us) t h = ground (arith, text_eq→eq id u.id, find-id id us t)

pub find-save :
    (id : Text) (t : TaskRecord) (ts : List TaskRecord)
    → find id (save t ts) ≡ (if text_eq id t.id then some t else find id ts)
unfolding find save
find-save id t [] = refl
find-save id t (u ∷ us) = elim (Bool-cases (text_eq t.id u.id)) [
  | inl e ↦ rw e (rw (text_eq→eq t.id u.id e) (ground arith))
  | inr e ↦ ground (arith, find-save id t us, text_eq→eq id t.id)
]

pub find-save_same : (t : TaskRecord) (ts : List TaskRecord) → find t.id (save t ts) ≡ some t
find-save_same t ts = find-save t.id t ts ∙ rw (text_eq_refl t.id) refl

-- What the slots in use become.
pub foreground_running-save :
    (t u : TaskRecord) (ts : List TaskRecord)
    → find t.id ts ≡ some u
    → foreground_running (save t ts) + count_if (holds_slot u)
      ≡ foreground_running ts + count_if (holds_slot t)
unfolding find save foreground_running
foreground_running-save t u [] h = cc
foreground_running-save t u (x ∷ xs) h = ground (arith, foreground_running-save t u xs)

pub foreground_running-save_new :
    (t : TaskRecord) (ts : List TaskRecord)
    → find t.id ts ≡ none
    → foreground_running (save t ts) ≡ foreground_running ts + count_if (holds_slot t)
unfolding find save foreground_running
foreground_running-save_new t [] h = omega arith
foreground_running-save_new t (x ∷ xs) h = ground (arith, foreground_running-save_new t xs)
