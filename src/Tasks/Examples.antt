-- ===== src/Tasks/Examples.antt =====
-- Runs of the state machine and of the dependency checks at concrete inputs.
use qwen_harness.Prelude.{some, ◌⊎◌, ℕ, ◌≤◌, str, Text, true, false, List, [], ◌∷◌, ◌≡◌, ◌↔◌, refl}
use qwen_harness.Tasks.StateMachine.{
  TaskStatus, pending, claimed, in_progress, completed, released, can_transition, task_transitions,
}
use qwen_harness.Tasks.StateMachine.Traces.{is_trace}
use qwen_harness.Tasks.Dependencies.{
  enough, search, DepEdge, blocks_of, has, reachable, would_create_cycle,
}
use qwen_harness.Protocol.{Actor, ActorKind}
use qwen_harness.Tasks.TaskStore.{TaskStore, empty_store, rebuild_projection}
use qwen_harness.Tasks.TaskGraph.{CreateTaskInput, Task, Transaction}
use qwen_harness.Tasks.TaskGraph.Operations.{create, claim, complete, start}
use qwen_harness.Tasks.TaskGraph.Calls.{TaskCall, run_calls}
use qwen_harness.Tasks.TaskGraph.Replay.{rebuild_projection-run_calls}
use qwen_harness.Tasks.TaskGraph.Acyclicity.{run_calls-IsAcyclic}
use qwen_harness.Tasks.TaskGraph.Claims.{winners, winners-le}
use qwen_harness.Tasks.Dependencies.Search.{Reaches, search_decides}
use qwen_harness.Tasks.Dependencies.Cycles.{IsAcyclic, would_create_cycle_iff}

abbrev life : List TaskStatus
life = claimed ∷ released ∷ claimed ∷ in_progress ∷ completed ∷ []

life_trace : is_trace pending life ≡ true
unfolding can_transition task_transitions
life_trace = refl

-- Task 1 blocks 2 and 3, and 2 blocks 3.
abbrev chain : List DepEdge
chain =
    record { blocker_id = 1; blocked_id = 2 }
    ∷ record { blocker_id = 1; blocked_id = 3 }
    ∷ record { blocker_id = 2; blocked_id = 3 }
    ∷ []

closes : would_create_cycle chain 3 1 ≡ true
unfolding would_create_cycle blocks_of has
closes = refl

extends : would_create_cycle chain 3 4 ≡ false
unfolding would_create_cycle blocks_of has
extends = refl

search_decides_example :
    let verdict = search chain 3 (enough chain) [] (1 ∷ []) in
    ((verdict ≡ some true) × (reachable chain 1 3 ≡ true) × Reaches chain 1 3)
    ⊎ ((verdict ≡ some false) × (reachable chain 1 3 ≡ false) × (¬ Reaches chain 1 3))
search_decides_example = search_decides chain 1 3

-- One edge from 1 to 2 is no cycle.
abbrev single : List DepEdge
single = record { blocker_id = 1; blocked_id = 2 } ∷ []

none-IsAcyclic : IsAcyclic []
unfolding blocks_of
none-IsAcyclic v (Reaches.edge _ _ m) = elim m [ ]
none-IsAcyclic v (Reaches.step _ _ _ m r) = elim m [ ]

single_answer : would_create_cycle [] 1 2 ≡ false
unfolding would_create_cycle blocks_of has
single_answer = refl

single-IsAcyclic : IsAcyclic single
single-IsAcyclic =
    (would_create_cycle_iff [] (record { blocker_id = 1; blocked_id = 2 }) none-IsAcyclic).0
      single_answer

would_create_cycle_iff_example :
    (would_create_cycle single 2 1 ≡ false)
    ↔ IsAcyclic (record { blocker_id = 2; blocked_id = 1 } ∷ single)
would_create_cycle_iff_example =
    would_create_cycle_iff single (record { blocker_id = 2; blocked_id = 1 }) single-IsAcyclic

abbrev lead : Actor
lead = record { kind = ActorKind.user; id = str "lead" }

-- A clock that answers the number of events so far.
abbrev ticks : ℕ → ℕ
ticks n = n

abbrev task_input : List ℕ → CreateTaskInput
task_input blocked_by = record {
  subject = str "s";
  description = [];
  active_form = str "a";
  blocked_by = blocked_by;
  metadata = str "{}";
}

-- Two tasks, the second blocked by the first, which is claimed and begun.
abbrev begun : List (TaskCall × Actor)
begun =
    (TaskCall.create_task (task_input []), lead)
    ∷ (TaskCall.create_task (task_input (1 ∷ [])), lead)
    ∷ (TaskCall.claim_task 1 (str "ann"), lead)
    ∷ (TaskCall.start_task 1, lead)
    ∷ []

abbrev unblocked_by : Transaction (Task × List ℕ) → List ℕ
unblocked_by (Transaction.committed (t, ids) s) = ids
unblocked_by (Transaction.thrown e) = []

-- The completion of the first unblocks the second.
completion_unblocks :
    unblocked_by (complete ticks (run_calls ticks begun empty_store) 1 lead) ≡ 2 ∷ []
unfolding create claim complete start
completion_unblocks = refl

rebuild_projection-run_calls_example :
    rebuild_projection (run_calls ticks begun empty_store) ≡ run_calls ticks begun empty_store
rebuild_projection-run_calls_example = rebuild_projection-run_calls ticks begun

-- Two claims race for a new task, and the first is won.
abbrev racers : List (Text × Actor)
racers = (str "ann", lead) ∷ (str "bob", lead) ∷ []

abbrev one_task : TaskStore
one_task = run_calls ticks ((TaskCall.create_task (task_input []), lead) ∷ []) empty_store

race_won : winners ticks 1 racers one_task ≡ 1
unfolding create claim
race_won = refl

winners-le_example : winners ticks 1 racers one_task ≤ 1
winners-le_example = winners-le ticks 1 racers one_task

run_calls-IsAcyclic_example : IsAcyclic (run_calls ticks begun empty_store).projection.deps
run_calls-IsAcyclic_example = run_calls-IsAcyclic ticks begun
