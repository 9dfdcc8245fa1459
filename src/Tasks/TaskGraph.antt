-- ===== src/Tasks/TaskGraph.antt =====
-- packages/tasks/src/task-graph.ts: the answers, errors and helpers of the graph of tasks. A transaction that
-- throws leaves the store as it was; listeners, who are told of committed events, are left out.
pub mod Operations
pub mod Calls
pub mod Replay
pub mod Claims
pub mod Acyclicity
use qwen_harness.Prelude.{
  ℕ, ◌+◌, Bool, true, false, not, ◌&&◌, ◌||◌, List, [], ◌∷◌, ◌++◌, Option, none, some, Text, ◌==◌,
  ltb, any, all, keep, is_none, is_empty, if◌then◌else◌, length,
}
use qwen_harness.Protocol.{Actor}
use qwen_harness.Tasks.StateMachine.{TaskStatus, place_of, can_transition, is_owned, is_claimable}
use qwen_harness.Tasks.Dependencies.{
  DepEdge, blockers_of, blocks_of, has, would_create_cycle, all_blockers_completed,
}
use qwen_harness.Tasks.TaskStore.{
  StoredTask, TaskEvent, Projection, TaskStore, apply_event, allocate_id,
}

-- `[...new Set(xs)]`, with the elements met already first.
unfoldable pub dedupe_from : List ℕ → List ℕ → List ℕ
unfolding has
dedupe_from seen [] = []
dedupe_from seen (x ∷ xs) =
    let rest = dedupe_from (if has seen x then seen else x ∷ seen) xs in
    if has seen x then rest else x ∷ rest

-- `xs.sort((a, b) => a - b)`
abbrev insert_number : ℕ → List ℕ → List ℕ
insert_number x [] = x ∷ []
insert_number x (y ∷ ys) = let rest = insert_number x ys in if ltb y x then y ∷ rest else x ∷ y ∷ ys

unfoldable pub sort_numbers : List ℕ → List ℕ
sort_numbers [] = []
sort_numbers (x ∷ xs) = insert_number x (sort_numbers xs)

unfoldable pub newly_unblocked : List DepEdge → ℕ → (ℕ → Bool) → (ℕ → Bool) → List ℕ
unfolding blocks_of all_blockers_completed dedupe_from sort_numbers
newly_unblocked edges completed_id is_blocked is_completed = sort_numbers (
    dedupe_from [] (
      keep (λ id. is_blocked id && all_blockers_completed edges id is_completed)
        (blocks_of edges completed_id)))

pub record Task : Type 0 where
  pub id : ℕ
  pub stored : StoredTask
  pub blocks : List ℕ
  pub blocked_by : List ℕ

pub data TaskError : Type 0 where
  missing_reference : ℕ → TaskError
  illegal_transition : TaskStatus → TaskStatus → TaskError
  cycle_rejected : TaskError
  blocked : TaskError
  invariant : TaskError

-- How a transaction ends.
pub data Transaction {ℓ} (A : Type ℓ) : Type ℓ where
  committed : A → TaskStore → Transaction A
  thrown : TaskError → Transaction A

-- Why a claim failed; the source has it as a text.
pub data ClaimRefusal : Type 0 where
  missing : ClaimRefusal
  already_owned : Text → ClaimRefusal
  not_claimable : TaskStatus → ClaimRefusal

pub data ClaimResult : Type 0 where
  ok : Task → ClaimResult
  refused : ClaimRefusal → ClaimResult

pub record CreateTaskInput : Type 0 where
  pub subject : Text
  pub description : Text
  pub active_form : Text
  pub blocked_by : List ℕ
  pub metadata : Text

abbrev pub get_task : TaskStore → ℕ → Option StoredTask
get_task s id = s.projection.nodes id

abbrev pub is_deleted : TaskStatus → Bool
is_deleted status = place_of status == place_of TaskStatus.deleted

unfoldable pub is_satisfied : TaskStatus → Bool
is_satisfied status = place_of status == place_of TaskStatus.completed || is_deleted status

-- A test of the status of the task that may be there.
abbrev pub status_is : (TaskStatus → Bool) → Option StoredTask → Bool
status_is test none = false
status_is test (some t) = test t.status

-- `!task || task.status === 'deleted'`
abbrev pub is_gone : Option StoredTask → Bool
is_gone none = true
is_gone (some t) = is_deleted t.status

unfoldable pub to_task : TaskStore → ℕ → StoredTask → Task
unfolding blocks_of blockers_of
to_task s id stored = record {
  id = id;
  stored = stored;
  blocks = blocks_of s.projection.deps id;
  blocked_by = blockers_of s.projection.deps id;
}

-- What each operation does with the task, if it is there.
abbrev pub with_task {ℓ} :
    {A : Type ℓ} → Option StoredTask → TaskError → (StoredTask → Transaction A) → Transaction A
with_task none e f = Transaction.thrown e
with_task (some t) e f = f t

-- The end of a transaction with the task read back; `f` makes the answer of it.
unfoldable pub readback {ℓ} : {A : Type ℓ} → (Task → A) → TaskStore → ℕ → Transaction A
unfolding to_task
readback f s id =
    with_task (get_task s id) TaskError.invariant
      (λ t. Transaction.committed (f (to_task s id t)) s)

abbrev pub first_gone : TaskStore → List ℕ → Option ℕ
first_gone s [] = none
first_gone s (b ∷ bs) = if is_gone (get_task s b) then some b else first_gone s bs
