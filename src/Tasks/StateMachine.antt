-- ===== src/Tasks/StateMachine.antt =====
-- packages/tasks/src/state-machine.ts: the table of legal transitions of a task.
pub mod Traces
use qwen_harness.Prelude.{ℕ, Bool, true, false, List, [], ◌∷◌, ◌==◌, any}

pub data TaskStatus : Type 0 where
  pending blocked claimed in_progress completed released deleted : TaskStatus

-- The place of a status in TASK_STATUSES.
abbrev pub place_of : TaskStatus → ℕ
place_of pending = 0
place_of blocked = 1
place_of claimed = 2
place_of in_progress = 3
place_of completed = 4
place_of released = 5
place_of deleted = 6

-- `xs.includes(x)`
abbrev pub lists : List TaskStatus → TaskStatus → Bool
lists xs x = any (λ y. place_of x == place_of y) xs

unfoldable pub task_transitions : TaskStatus → List TaskStatus
task_transitions pending = claimed ∷ blocked ∷ deleted ∷ []
task_transitions blocked = pending ∷ deleted ∷ []
task_transitions claimed = in_progress ∷ released ∷ blocked ∷ deleted ∷ []
task_transitions in_progress = completed ∷ released ∷ blocked ∷ deleted ∷ []
task_transitions completed = deleted ∷ []
task_transitions released = claimed ∷ blocked ∷ deleted ∷ []
task_transitions deleted = []

unfoldable pub can_transition : TaskStatus → TaskStatus → Bool
unfolding task_transitions
can_transition from to = lists (task_transitions from) to

abbrev pub is_owned : TaskStatus → Bool
is_owned status = lists (claimed ∷ in_progress ∷ []) status

abbrev pub is_claimable : TaskStatus → Bool
is_claimable status = lists (pending ∷ released ∷ []) status

abbrev pub is_terminal : TaskStatus → Bool
is_terminal deleted = true
is_terminal _ = false
