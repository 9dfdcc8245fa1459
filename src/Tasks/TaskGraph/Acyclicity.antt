-- ===== src/Tasks/TaskGraph/Acyclicity.antt =====
-- packages/tasks/src/task-graph.ts: no sequence of operations stores a cycle of dependencies.
use qwen_harness.Prelude.{
  ℕ, ◌<◌, Bool, true, false, not, ◌&&◌, List, [], ◌∷◌, Option, none, some, Text, ◌≡◌, refl, ap, ◌∙◌,
  arith, ◌==◌, ==_iff, if_both, Bool-cases, Option-cases, inl, inr, All,
}
use mathlib.Core.List.{Memᴰ}
use qwen_harness.Protocol.{Actor}
use qwen_harness.Tasks.StateMachine.{TaskStatus, is_claimable}
use qwen_harness.Tasks.Dependencies.{DepEdge, would_create_cycle}
use qwen_harness.Tasks.Dependencies.Cycles.{IsAcyclic, would_create_cycle_iff}
use qwen_harness.Tasks.Dependencies.Edges.{Holds, IsAcyclic-mono, not-Reaches, IsAcyclic-cons}
use qwen_harness.Tasks.TaskStore.{
  StoredTask, TaskEvent, TaskStore, empty_store, edge_before, insert_dep, insert_blockers, update,
  project_event, apply_event, allocate_id,
}
use qwen_harness.Tasks.TaskGraph.{Task, CreateTaskInput, get_task, is_gone, is_deleted, first_gone}
use qwen_harness.Tasks.TaskGraph.Operations.{
  emit, create_checked, created, create, linked, add_dependency,
}
use qwen_harness.Tasks.TaskGraph.Calls.{
  TaskCall, store_after, is_plain, run_calls, run_calls-keeps, guard-keeps, guard_passed-keeps,
  with_task-keeps, readback-keeps,
}

mem-insert_dep : (d : DepEdge) (es : List DepEdge) → Holds (d ∷ es) (insert_dep d es)
unfolding insert_dep
mem-insert_dep d [] e = λ m. m
mem-insert_dep d (x ∷ es) e =
    if_both (λ l. Memᴰ e l → Memᴰ e (d ∷ x ∷ es)) (edge_before d x) (λ m. m)
      (if_both (λ l. Memᴰ e l → Memᴰ e (d ∷ x ∷ es)) (edge_before x d)
        (λ m. elim m [
          | Memᴰ.head q ↦ Memᴰ.tail (Memᴰ.head q)
          | Memᴰ.tail t ↦ elim (mem-insert_dep d es e t) [
            | Memᴰ.head q ↦ Memᴰ.head q
            | Memᴰ.tail u ↦ Memᴰ.tail (Memᴰ.tail u)
          ]
        ])
        (λ m. Memᴰ.tail m))

-- Every edge starts at an id that was given out.
abbrev StartsBelow : ℕ → List DepEdge → Type 0
StartsBelow n es = (e : DepEdge) → Memᴰ e es → e.blocker_id < n

StartsBelow-insert_dep :
    (n : ℕ) (d : DepEdge) (es : List DepEdge)
    → d.blocker_id < n
    → StartsBelow n es
    → StartsBelow n (insert_dep d es)
StartsBelow-insert_dep n d es h k e m = elim (mem-insert_dep d es e m) [
  | Memᴰ.head q ↦ rw q h
  | Memᴰ.tail t ↦ k e t
]

-- The edges of a new task.
insert_blockers-IsAcyclic :
    (bs : List ℕ) (id : ℕ) (deps : List DepEdge)
    → All (λ b. b < id) bs
    → IsAcyclic deps
    → StartsBelow id deps
    → IsAcyclic (insert_blockers bs id deps) × StartsBelow id (insert_blockers bs id deps)
unfolding insert_blockers
insert_blockers-IsAcyclic [] id deps h a k = (a, k)
insert_blockers-IsAcyclic (b ∷ bs) id deps h a k =
    let d : DepEdge = record { blocker_id = b; blocked_id = id } in
    let longer = IsAcyclic-cons deps d a (λ r. elim r [
      | inl q ↦ omega (arith, q, h.0)
      | inr r' ↦ not-Reaches deps id b (λ e m q. omega (arith, q, k e m)) r'
    ]) in
    insert_blockers-IsAcyclic bs id (insert_dep d deps) h.1
      (IsAcyclic-mono (insert_dep d deps) (d ∷ deps) (mem-insert_dep d deps) longer)
      (StartsBelow-insert_dep id d deps h.0 k)

-- The edges have no cycle and start at ids that were given out, as those of all tasks are.
abbrev IsSound : TaskStore → Type 0
IsSound s =
    IsAcyclic s.projection.deps
    × StartsBelow s.next_id s.projection.deps
    × ((n : ℕ) (t : StoredTask) → get_task s n ≡ some t → n < s.next_id)

update-some :
    (nodes : ℕ → Option StoredTask) (id : ℕ) (f : StoredTask → StoredTask) (n : ℕ) (t : StoredTask)
    → update nodes id f n ≡ some t
    → (u : StoredTask) × (nodes n ≡ some u)
update-some nodes id f n t h = elim (Bool-cases (n == id)) [
  | inl q ↦ elim (Option-cases (nodes id)) [
    | inl e ↦ let c : none ≡ some t = rw (q, e) at h in cc
    | inr (u, e) ↦ (u, ap nodes ((==_iff n id).0 q) ∙ e)
  ]
  | inr q ↦ (t, rw q at h)
]

-- What a plain event may do to a sound store.
update-IsSound :
    (s : TaskStore) (id : ℕ) (f : StoredTask → StoredTask) (n : ℕ) (t : StoredTask)
    → IsSound s
    → update s.projection.nodes id f n ≡ some t
    → n < s.next_id
update-IsSound s id f n t h e = let (u, g) = update-some s.projection.nodes id f n t e in h.2 n u g

present-below : (s : TaskStore) (b : ℕ) → IsSound s → is_gone (get_task s b) ≡ false → b < s.next_id
present-below s b h q = elim (Option-cases (get_task s b)) [
  | inl e ↦ let c : true ≡ false = rw e at q in cc
  | inr (t, e) ↦ h.2 b t e
]

empty-IsSound : IsSound empty_store
empty-IsSound = (λ v r. not-Reaches [] v v (λ e m q. elim m [ ]) r, λ e m. elim m [ ], λ n t e. cc)

module _ (clock : ℕ → ℕ) where
  plain-IsSound :
      (s : TaskStore) (id : ℕ) (event : TaskEvent) (actor : Actor)
      → is_plain event ≡ true
      → IsSound s
      → IsSound (emit clock s id event actor)
  unfolding emit apply_event project_event
  plain-IsSound s id (TaskEvent.task_created subject description form status metadata by) actor p
        h =
      cc
  plain-IsSound s id (TaskEvent.task_dependency_added b c) actor p h = cc
  plain-IsSound s id (TaskEvent.task_claimed owner) actor p h =
      (h.0, h.1, λ n t e. update-IsSound s id _ n t h e)
  plain-IsSound s id TaskEvent.task_released actor p h =
      (h.0, h.1, λ n t e. update-IsSound s id _ n t h e)
  plain-IsSound s id TaskEvent.task_deleted actor p h =
      (h.0, h.1, λ n t e. update-IsSound s id _ n t h e)
  plain-IsSound s id (TaskEvent.task_status_changed status) actor p h =
      (h.0, h.1, λ n t e. update-IsSound s id _ n t h e)
  plain-IsSound s id (TaskEvent.task_metadata_updated metadata) actor p h =
      (h.0, h.1, λ n t e. update-IsSound s id _ n t h e)

  -- Blockers that are there have ids that were given out.
  first_gone-below :
      (s : TaskStore) (bs : List ℕ)
      → IsSound s
      → first_gone s bs ≡ none
      → All (λ b. b < s.next_id) bs
  first_gone-below s [] h e = tt
  first_gone-below s (b ∷ bs) h e = elim (Bool-cases (is_gone (get_task s b))) [
    | inl q ↦ let c : some b ≡ none = rw q at e in cc
    | inr q ↦ (present-below s b h q, first_gone-below s bs h (rw q at e))
  ]

  created_event-IsSound :
      (s : TaskStore) (subject description form : Text) (status : TaskStatus) (metadata : Text)
      (bs : List ℕ) (actor : Actor)
      → IsSound s
      → All (λ b. b < s.next_id) bs
      → IsSound (
          emit clock
            (allocate_id s)
            s.next_id
            (TaskEvent.task_created subject description form status metadata bs)
            actor)
  unfolding allocate_id emit apply_event project_event
  created_event-IsSound s subject description form status metadata bs actor h below =
      let (acyclic, starts) =
        insert_blockers-IsAcyclic bs s.next_id s.projection.deps below h.0 h.1 in
      (
        acyclic,
        λ e m. omega (arith, starts e m),
        λ n t e. elim (Bool-cases (n == s.next_id)) [
          | inl q ↦ omega (arith, (==_iff n s.next_id).0 q)
          | inr q ↦ omega (arith, h.2 n t (rw q at e))
        ],
      )

  created-IsSound :
      (s : TaskStore) (input : CreateTaskInput) (bs : List ℕ) (actor : Actor)
      → IsSound s
      → All (λ b. b < s.next_id) bs
      → IsSound (store_after s (created clock s input bs actor))
  unfolding created
  created-IsSound s input bs actor h below = search (
    guard-keeps {0, 0} clock IsSound {A = Task},
    readback-keeps {0, 0} clock IsSound {A = Task},
    created_event-IsSound,
    h,
    below,
  )

  dependency-IsSound :
      (s : TaskStore) (blocker_id blocked_id : ℕ) (actor : Actor)
      → IsSound s
      → is_gone (get_task s blocker_id) ≡ false
      → would_create_cycle s.projection.deps blocker_id blocked_id ≡ false
      → IsSound
          (emit clock s blocked_id (TaskEvent.task_dependency_added blocker_id blocked_id) actor)
  unfolding emit apply_event project_event
  dependency-IsSound s blocker_id blocked_id actor h there acyclic =
      let d : DepEdge = record { blocker_id = blocker_id; blocked_id = blocked_id } in
      let deps = s.projection.deps in
      (
        IsAcyclic-mono (insert_dep d deps) (d ∷ deps) (mem-insert_dep d deps)
            ((would_create_cycle_iff deps d h.0).0 acyclic),
        StartsBelow-insert_dep s.next_id d deps (present-below s blocker_id h there) h.1,
        λ n t e. update-IsSound s blocked_id _ n t h e,
      )

  linked-IsSound :
      (s : TaskStore) (blocker_id blocked_id : ℕ) (status : TaskStatus) (satisfied : Bool)
      (actor : Actor)
      → IsSound s
      → is_gone (get_task s blocker_id) ≡ false
      → would_create_cycle s.projection.deps blocker_id blocked_id ≡ false
      → IsSound (store_after s (linked clock s blocker_id blocked_id status satisfied actor))
  unfolding linked
  linked-IsSound s blocker_id blocked_id status satisfied actor h there acyclic =
      let k = dependency-IsSound s blocker_id blocked_id actor h there acyclic in
      readback-keeps clock IsSound (λ t. t) s _ blocked_id h
        (if_both IsSound (is_claimable status && not satisfied)
          (plain-IsSound
            (emit clock s blocked_id (TaskEvent.task_dependency_added blocker_id blocked_id) actor)
            blocked_id (TaskEvent.task_status_changed TaskStatus.blocked) actor refl k)
          k)

  create_checked-IsSound :
      (s : TaskStore) (input : CreateTaskInput) (bs : List ℕ) (actor : Actor) (o : Option ℕ)
      → IsSound s
      → first_gone s bs ≡ o
      → IsSound (store_after s (create_checked clock s input bs actor o))
  unfolding create_checked
  create_checked-IsSound s input bs actor (some b) h e = h
  create_checked-IsSound s input bs actor none h e =
      created-IsSound s input bs actor h (first_gone-below s bs h e)

  create-IsSound :
      (s : TaskStore) (input : CreateTaskInput) (actor : Actor)
      → IsSound s
      → IsSound (store_after s (create clock s input actor))
  unfolding create
  create-IsSound s input actor h = create_checked-IsSound s input _ actor _ h refl

  add_dependency-IsSound :
      (s : TaskStore) (blocker_id blocked_id : ℕ) (actor : Actor)
      → IsSound s
      → IsSound (store_after s (add_dependency clock s blocker_id blocked_id actor))
  unfolding add_dependency
  add_dependency-IsSound s blocker_id blocked_id actor h =
      with_task-keeps clock IsSound s (get_task s blocked_id) _ _ h (λ t.
        guard_passed-keeps clock IsSound s (is_gone (get_task s blocker_id)) _ _ h (λ there.
          guard-keeps clock IsSound s (is_deleted t.status) _ _ h (
            guard_passed-keeps clock IsSound s
              (would_create_cycle s.projection.deps blocker_id blocked_id) _ _ h
              (λ acyclic.
                linked-IsSound s blocker_id blocked_id t.status _ actor h there acyclic))))

  -- No sequence of operations on an empty graph, those that fail included, stores dependencies in
  -- which a task waits on itself, through however many others.
  pub run_calls-IsAcyclic :
      (cs : List (TaskCall × Actor)) → IsAcyclic (run_calls clock cs empty_store).projection.deps
  run_calls-IsAcyclic cs =
      (run_calls-keeps clock IsSound plain-IsSound create-IsSound add_dependency-IsSound cs
        empty_store empty-IsSound).0
