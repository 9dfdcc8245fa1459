-- ===== src/Tasks/TaskGraph/Operations.antt =====
-- packages/tasks/src/task-graph.ts: the operations of the graph, each one transaction.
use qwen_harness.Prelude.{
  ℕ, Bool, not, ◌&&◌, ◌||◌, List, [], ◌∷◌, Option, none, some, Text, ◌==◌, any, all, is_empty,
  if◌then◌else◌, length,
}
use qwen_harness.Protocol.{Actor}
use qwen_harness.Tasks.StateMachine.{TaskStatus, place_of, can_transition, is_owned, is_claimable}
use qwen_harness.Tasks.Dependencies.{would_create_cycle, all_blockers_completed}
use qwen_harness.Tasks.TaskStore.{StoredTask, TaskEvent, TaskStore, apply_event, allocate_id}
use qwen_harness.Tasks.TaskGraph.{
  dedupe_from, newly_unblocked, Task, TaskError, Transaction, ClaimRefusal, ClaimResult,
  CreateTaskInput, get_task, is_deleted, is_satisfied, status_is, is_gone, with_task, readback,
  first_gone,
}

-- The clock's answer when an event of this place in the log is appended.
module _ (clock : ℕ → ℕ) where
  unfoldable pub emit : TaskStore → ℕ → TaskEvent → Actor → TaskStore
  unfolding apply_event
  emit s id event actor = apply_event s id event actor (clock (length s.log))

  unfoldable pub created : TaskStore → CreateTaskInput → List ℕ → Actor → Transaction Task
  unfolding allocate_id emit would_create_cycle is_satisfied readback
  created s input blocked_by actor =
      let id = s.next_id in
      let a = allocate_id s in
      let satisfied = all (λ b. status_is is_satisfied (get_task a b)) blocked_by in
      let status =
        if is_empty blocked_by || satisfied then TaskStatus.pending else TaskStatus.blocked in
      let e =
        emit a id
          (TaskEvent.task_created input.subject input.description input.active_form status
            input.metadata blocked_by)
          actor in
      if any (λ b. would_create_cycle a.projection.deps b id) blocked_by
      then Transaction.thrown TaskError.cycle_rejected
      else readback (λ t. t) e id

  -- The check of the declared blockers answered the first that is missing or deleted.
  unfoldable pub create_checked :
      TaskStore → CreateTaskInput → List ℕ → Actor → Option ℕ → Transaction Task
  unfolding created
  create_checked s input blocked_by actor (some b) =
      Transaction.thrown (TaskError.missing_reference b)
  create_checked s input blocked_by actor none = created s input blocked_by actor

  unfoldable pub create : TaskStore → CreateTaskInput → Actor → Transaction Task
  unfolding create_checked dedupe_from
  create s input actor =
      let blocked_by = dedupe_from [] input.blocked_by in
      create_checked s input blocked_by actor (first_gone s blocked_by)

  -- A blocker that is not done sends a task that nobody owns back to `blocked`.
  unfoldable pub linked : TaskStore → ℕ → ℕ → TaskStatus → Bool → Actor → Transaction Task
  unfolding emit readback
  linked s blocker_id blocked_id status satisfied actor =
      let e = emit s blocked_id (TaskEvent.task_dependency_added blocker_id blocked_id) actor in
      readback (λ t. t)
        (if is_claimable status && not satisfied
          then emit e blocked_id (TaskEvent.task_status_changed TaskStatus.blocked) actor
          else e)
        blocked_id

  unfoldable pub add_dependency : TaskStore → ℕ → ℕ → Actor → Transaction Task
  unfolding linked would_create_cycle is_satisfied
  add_dependency s blocker_id blocked_id actor =
      with_task (get_task s blocked_id)
        (if is_gone (get_task s blocker_id)
          then TaskError.missing_reference blocker_id
          else TaskError.missing_reference blocked_id)
        (λ t.
          if is_gone (get_task s blocker_id)
          then Transaction.thrown (TaskError.missing_reference blocker_id)
          else if is_deleted t.status
          then Transaction.thrown (TaskError.missing_reference blocked_id)
          else if would_create_cycle s.projection.deps blocker_id blocked_id
          then Transaction.thrown TaskError.cycle_rejected
          else linked s blocker_id blocked_id t.status
              (status_is is_satisfied (get_task s blocker_id)) actor)

  -- A claim of a task that is there, with the owner that it has.
  unfoldable pub claim_owned :
      TaskStore → ℕ → Text → Actor → TaskStatus → Option Text → Transaction ClaimResult
  unfolding emit readback
  claim_owned s id owner actor status (some o) =
      Transaction.committed (ClaimResult.refused (ClaimRefusal.already_owned o)) s
  claim_owned s id owner actor status none =
      if not (is_claimable status)
      then Transaction.committed (ClaimResult.refused (ClaimRefusal.not_claimable status)) s
      else readback ClaimResult.ok (emit s id (TaskEvent.task_claimed owner) actor) id

  unfoldable pub claim_on :
      TaskStore → ℕ → Text → Actor → Option StoredTask → Transaction ClaimResult
  unfolding claim_owned
  claim_on s id owner actor none =
      Transaction.committed (ClaimResult.refused ClaimRefusal.missing) s
  claim_on s id owner actor (some t) = claim_owned s id owner actor t.status t.owner

  unfoldable pub claim : TaskStore → ℕ → Text → Actor → Transaction ClaimResult
  unfolding claim_on
  claim s id owner actor = claim_on s id owner actor (get_task s id)

  unfoldable pub start : TaskStore → ℕ → Actor → Transaction Task
  unfolding emit readback can_transition all_blockers_completed is_satisfied
  start s id actor = with_task (get_task s id) (TaskError.missing_reference id) (λ t.
      if not (can_transition t.status TaskStatus.in_progress)
      then Transaction.thrown (TaskError.illegal_transition t.status TaskStatus.in_progress)
      else if not
          (all_blockers_completed s.projection.deps id (λ b. status_is is_satisfied (get_task s b)))
      then Transaction.thrown TaskError.blocked
      else readback (λ u. u)
          (emit s id (TaskEvent.task_status_changed TaskStatus.in_progress) actor) id)

  unfoldable pub release : TaskStore → ℕ → Actor → Transaction Task
  unfolding emit readback
  release s id actor = with_task (get_task s id) (TaskError.missing_reference id) (λ t.
      if not (is_owned t.status)
      then Transaction.thrown (TaskError.illegal_transition t.status TaskStatus.released)
      else readback (λ u. u) (emit s id TaskEvent.task_released actor) id)

  -- The loop over the tasks that became runnable.
  unfoldable pub unblock : TaskStore → List ℕ → Actor → TaskStore
  unfolding emit
  unblock s [] actor = s
  unblock s (id ∷ ids) actor =
      unblock (emit s id (TaskEvent.task_status_changed TaskStatus.pending) actor) ids actor

  -- The answer holds the ids of the tasks that became runnable.
  unfoldable pub unblock_downstream : TaskStore → ℕ → Actor → Transaction (Task × List ℕ)
  unfolding newly_unblocked unblock readback is_satisfied
  unblock_downstream s id actor =
      let ids =
        newly_unblocked s.projection.deps id
          (λ t. status_is (λ st. place_of st == place_of TaskStatus.blocked) (get_task s t))
          (λ t. status_is is_satisfied (get_task s t)) in
      readback (λ t. (t, ids)) (unblock s ids actor) id

  unfoldable pub complete : TaskStore → ℕ → Actor → Transaction (Task × List ℕ)
  unfolding emit unblock_downstream can_transition
  complete s id actor = with_task (get_task s id) (TaskError.missing_reference id) (λ t.
      if not (can_transition t.status TaskStatus.completed)
      then Transaction.thrown (TaskError.illegal_transition t.status TaskStatus.completed)
      else unblock_downstream (emit s id (TaskEvent.task_status_changed TaskStatus.completed) actor)
          id actor)

  unfoldable pub delete : TaskStore → ℕ → Actor → Transaction (Task × List ℕ)
  unfolding emit unblock_downstream
  delete s id actor = with_task (get_task s id) (TaskError.missing_reference id) (λ t.
      if is_deleted t.status
      then Transaction.thrown (TaskError.illegal_transition TaskStatus.deleted TaskStatus.deleted)
      else unblock_downstream (emit s id TaskEvent.task_deleted actor) id actor)

  unfoldable pub set_metadata : TaskStore → ℕ → Text → Actor → Transaction Task
  unfolding emit readback
  set_metadata s id metadata actor =
      with_task (get_task s id) (TaskError.missing_reference id) (λ t.
        if is_deleted t.status
        then Transaction.thrown (TaskError.illegal_transition TaskStatus.deleted TaskStatus.deleted)
        else readback (λ u. u) (emit s id (TaskEvent.task_metadata_updated metadata) actor) id)
