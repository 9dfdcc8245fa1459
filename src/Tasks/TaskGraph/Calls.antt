-- ===== src/Tasks/TaskGraph/Calls.antt =====
-- packages/tasks/src/task-graph.ts: what every operation keeps, since it only allocates ids and emits
-- events.
use qwen_harness.Prelude.{
  ◌≡◌, refl, true, false, ℕ, Bool, not, ◌&&◌, List, [], ◌∷◌, Option, none, some, Text,
  if◌then◌else◌, if_both,
}
use qwen_harness.Protocol.{Actor}
use qwen_harness.Tasks.StateMachine.{TaskStatus, is_claimable}
use qwen_harness.Tasks.TaskStore.{StoredTask, TaskEvent, TaskStore, allocate_id}
use qwen_harness.Tasks.TaskGraph.{
  Task, TaskError, Transaction, CreateTaskInput, get_task, readback, with_task,
}
use qwen_harness.Tasks.TaskGraph.Operations.{
  emit, created, create_checked, claim_owned, create, linked, add_dependency, claim_on, claim,
  start, release, unblock, unblock_downstream, complete, delete, set_metadata,
}

-- The operations on the graph that change it.
pub data TaskCall : Type 0 where
  create_task : CreateTaskInput → TaskCall
  link : (blocker_id blocked_id : ℕ) → TaskCall
  claim_task : (id : ℕ) → (owner : Text) → TaskCall
  start_task release_task complete_task delete_task : (id : ℕ) → TaskCall
  put_metadata : (id : ℕ) → (metadata : Text) → TaskCall

-- The store behind a transaction that began with another.
abbrev pub store_after {ℓ} : {A : Type ℓ} → TaskStore → Transaction A → TaskStore
store_after s (Transaction.committed a s') = s'
store_after s (Transaction.thrown e) = s

-- Whether an event leaves the edges and the set of tasks as they are.
abbrev pub is_plain : TaskEvent → Bool
is_plain (TaskEvent.task_created subject description active_form status metadata blocked_by) = false
is_plain (TaskEvent.task_dependency_added blocker_id blocked_id) = false
is_plain _ = true

module _ (clock : ℕ → ℕ) where
  abbrev pub call : TaskStore → TaskCall → Actor → TaskStore
  call s (TaskCall.create_task input) actor = store_after s (create clock s input actor)
  call s (TaskCall.link blocker_id blocked_id) actor =
      store_after s (add_dependency clock s blocker_id blocked_id actor)
  call s (TaskCall.claim_task id owner) actor = store_after s (claim clock s id owner actor)
  call s (TaskCall.start_task id) actor = store_after s (start clock s id actor)
  call s (TaskCall.release_task id) actor = store_after s (release clock s id actor)
  call s (TaskCall.complete_task id) actor = store_after s (complete clock s id actor)
  call s (TaskCall.delete_task id) actor = store_after s (delete clock s id actor)
  call s (TaskCall.put_metadata id metadata) actor =
      store_after s (set_metadata clock s id metadata actor)

  abbrev pub run_calls : List (TaskCall × Actor) → TaskStore → TaskStore
  run_calls [] s = s
  run_calls ((c, actor) ∷ cs) s = run_calls cs (call s c actor)

  module _ {κ} (P : TaskStore → Type κ) where
    -- A guard that throws, or the rest of the transaction.
    pub guard-keeps {ℓ} :
        {A : Type ℓ} (s : TaskStore) (b : Bool) (e : TaskError) (t : Transaction A)
        → P s
        → P (store_after s t)
        → P (store_after s (if b then Transaction.thrown e else t))
    guard-keeps s b e t h k = if_both (λ x. P (store_after s x)) b h k

    -- The rest of the transaction may rest on the guard's answer.
    pub guard_passed-keeps {ℓ} :
        {A : Type ℓ} (s : TaskStore) (b : Bool) (e : TaskError) (t : Transaction A)
        → P s
        → (b ≡ false → P (store_after s t))
        → P (store_after s (if b then Transaction.thrown e else t))
    guard_passed-keeps s true e t h k = h
    guard_passed-keeps s false e t h k = k refl

    stay-keeps {ℓ} :
        {A : Type ℓ} (s : TaskStore) (b : Bool) (a : A) (t : Transaction A)
        → P s
        → P (store_after s t)
        → P (store_after s (if b then Transaction.committed a s else t))
    stay-keeps s b a t h k = if_both (λ x. P (store_after s x)) b h k

    pub with_task-keeps {ℓ} :
        {A : Type ℓ} (s : TaskStore) (o : Option StoredTask) (e : TaskError)
        (f : StoredTask → Transaction A)
        → P s
        → ((t : StoredTask) → P (store_after s (f t)))
        → P (store_after s (with_task o e f))
    with_task-keeps s none e f h k = h
    with_task-keeps s (some t) e f h k = k t

    pub readback-keeps {ℓ} :
        {A : Type ℓ} (f : Task → A) (s s' : TaskStore) (id : ℕ)
        → P s
        → P s'
        → P (store_after s (readback f s' id))
    unfolding readback
    readback-keeps f s s' id h k = with_task-keeps s (get_task s' id) _ _ h (λ t. k)

    -- A property that every emission and an allocation keep.
    module _
        (emit_keeps : (s : TaskStore) (id : ℕ) (event : TaskEvent) (actor : Actor)
          → P s
          → P (emit clock s id event actor))
        (allocate_keeps : (s : TaskStore) → P s → P (allocate_id s)) where
      create_checked-keeps :
          (s : TaskStore) (input : CreateTaskInput) (blocked_by : List ℕ) (actor : Actor)
          (o : Option ℕ)
          → P s
          → P (store_after s (create_checked clock s input blocked_by actor o))
      unfolding create_checked created
      create_checked-keeps s input blocked_by actor (some b) h = h
      create_checked-keeps s input blocked_by actor none h =
          search (guard-keeps, readback-keeps, emit_keeps, allocate_keeps, h)

      linked-keeps :
          (s : TaskStore) (blocker_id blocked_id : ℕ) (status : TaskStatus) (satisfied : Bool)
          (actor : Actor)
          → P s
          → P (store_after s (linked clock s blocker_id blocked_id status satisfied actor))
      unfolding linked
      linked-keeps s blocker_id blocked_id status satisfied actor h =
          let e =
            emit clock s blocked_id (TaskEvent.task_dependency_added blocker_id blocked_id) actor in
          let k =
            emit_keeps s blocked_id (TaskEvent.task_dependency_added blocker_id blocked_id) actor
              h in
          readback-keeps (λ u. u) s _ blocked_id h
            (if_both P (is_claimable status && not satisfied)
              (emit_keeps e blocked_id (TaskEvent.task_status_changed TaskStatus.blocked) actor k)
              k)

      pub add_dependency-keeps :
          (s : TaskStore) (blocker_id blocked_id : ℕ) (actor : Actor)
          → P s
          → P (store_after s (add_dependency clock s blocker_id blocked_id actor))
      unfolding add_dependency
      add_dependency-keeps s blocker_id blocked_id actor h =
          with_task-keeps s (get_task s blocked_id) _ _ h
            (λ t. search (guard-keeps, linked-keeps, h))

      pub create-keeps :
          (s : TaskStore) (input : CreateTaskInput) (actor : Actor)
          → P s
          → P (store_after s (create clock s input actor))
      unfolding create
      create-keeps s input actor h = create_checked-keeps s input _ actor _ h

    -- A property that the two operations which add edges keep, and the emission of any other event.
    module _
        (emit_keeps : (s : TaskStore) (id : ℕ) (event : TaskEvent) (actor : Actor)
          → is_plain event ≡ true
          → P s
          → P (emit clock s id event actor))
        (create_keeps : (s : TaskStore) (input : CreateTaskInput) (actor : Actor)
          → P s
          → P (store_after s (create clock s input actor)))
        (link_keeps : (s : TaskStore) (blocker_id blocked_id : ℕ) (actor : Actor)
          → P s
          → P (store_after s (add_dependency clock s blocker_id blocked_id actor))) where
      unblock-keeps :
          (ids : List ℕ) (s : TaskStore) (actor : Actor) → P s → P (unblock clock s ids actor)
      unfolding unblock
      unblock-keeps [] s actor h = h
      unblock-keeps (id ∷ ids) s actor h =
          unblock-keeps ids
            (emit clock s id (TaskEvent.task_status_changed TaskStatus.pending) actor) actor
            (emit_keeps s id (TaskEvent.task_status_changed TaskStatus.pending) actor refl h)

      unblock_downstream-keeps :
          (s s' : TaskStore) (id : ℕ) (actor : Actor)
          → P s
          → P s'
          → P (store_after s (unblock_downstream clock s' id actor))
      unfolding unblock_downstream
      unblock_downstream-keeps s s' id actor h k = search (readback-keeps, unblock-keeps, h, k)

      claim_owned-keeps :
          (s : TaskStore) (id : ℕ) (owner : Text) (actor : Actor) (status : TaskStatus)
          (o : Option Text)
          → P s
          → P (store_after s (claim_owned clock s id owner actor status o))
      unfolding claim_owned
      claim_owned-keeps s id owner actor status (some o) h = h
      claim_owned-keeps s id owner actor status none h =
          search (stay-keeps, readback-keeps, emit_keeps, h)

      claim_on-keeps :
          (s : TaskStore) (id : ℕ) (owner : Text) (actor : Actor) (o : Option StoredTask)
          → P s
          → P (store_after s (claim_on clock s id owner actor o))
      unfolding claim_on
      claim_on-keeps s id owner actor none h = h
      claim_on-keeps s id owner actor (some t) h =
          claim_owned-keeps s id owner actor t.status t.owner h

      -- An operation keeps what an emission and an allocation keep.
      call-keeps : (s : TaskStore) (c : TaskCall) (actor : Actor) → P s → P (call s c actor)
      unfolding claim start release complete delete set_metadata
      call-keeps s (TaskCall.create_task input) actor h = create_keeps s input actor h
      call-keeps s (TaskCall.link blocker_id blocked_id) actor h =
          link_keeps s blocker_id blocked_id actor h
      call-keeps s (TaskCall.claim_task id owner) actor h =
          claim_on-keeps s id owner actor (get_task s id) h
      call-keeps s (TaskCall.start_task id) actor h =
          with_task-keeps s (get_task s id) _ _ h
            (λ t. search (guard-keeps, readback-keeps, emit_keeps, h))
      call-keeps s (TaskCall.release_task id) actor h =
          with_task-keeps s (get_task s id) _ _ h
            (λ t. search (guard-keeps, readback-keeps, emit_keeps, h))
      call-keeps s (TaskCall.complete_task id) actor h =
          with_task-keeps s (get_task s id) _ _ h
            (λ t. search (guard-keeps, unblock_downstream-keeps, emit_keeps, h))
      call-keeps s (TaskCall.delete_task id) actor h =
          with_task-keeps s (get_task s id) _ _ h
            (λ t. search (guard-keeps, unblock_downstream-keeps, emit_keeps, h))
      call-keeps s (TaskCall.put_metadata id metadata) actor h =
          with_task-keeps s (get_task s id) _ _ h
            (λ t. search (guard-keeps, readback-keeps, emit_keeps, h))

      pub run_calls-keeps :
          (cs : List (TaskCall × Actor)) (s : TaskStore) → P s → P (run_calls cs s)
      run_calls-keeps [] s h = h
      run_calls-keeps ((c, actor) ∷ cs) s h =
          run_calls-keeps cs (call s c actor) (call-keeps s c actor h)
