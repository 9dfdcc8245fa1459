-- ===== src/Tasks/TaskGraph/Replay.antt =====
-- packages/tasks/src/task-graph.ts, packages/storage/src/task-store.ts: the projection is the replay
-- of the log.
use qwen_harness.Prelude.{ℕ, List, [], ◌∷◌, ◌++◌, length, ◌≡◌, refl, ap, ◌∙◌}
use qwen_harness.Protocol.{Actor}
use qwen_harness.Tasks.TaskStore.{
  TaskEvent, TaskEventRecord, Projection, TaskStore, empty_projection, empty_store, project_event,
  replay, rebuild_projection, apply_event, allocate_id,
}
use qwen_harness.Tasks.TaskGraph.Operations.{emit}
use qwen_harness.Tasks.TaskGraph.Calls.{
  TaskCall, run_calls, run_calls-keeps, create-keeps, add_dependency-keeps,
}

replay-append :
    (p : Projection) (rs : List TaskEventRecord) (r : TaskEventRecord)
    → replay p (rs ++ r ∷ []) ≡ project_event (replay p rs) r
unfolding replay
replay-append p [] r = refl
replay-append p (x ∷ rs) r = replay-append (project_event p x) rs r

-- The projection is the log replayed.
abbrev IsReplayed : TaskStore → Type 0
IsReplayed s = replay empty_projection s.log ≡ s.projection

module _ (clock : ℕ → ℕ) where
  emit-IsReplayed :
      (s : TaskStore) (id : ℕ) (event : TaskEvent) (actor : Actor)
      → IsReplayed s
      → IsReplayed (emit clock s id event actor)
  unfolding emit apply_event
  emit-IsReplayed s id event actor h =
      let r : TaskEventRecord = record {
        task_id = id;
        event = event;
        actor = actor;
        timestamp = clock (length s.log);
      } in
      replay-append empty_projection s.log r ∙ ap (λ p. project_event p r) h

  allocate-IsReplayed : (s : TaskStore) → IsReplayed s → IsReplayed (allocate_id s)
  unfolding allocate_id
  allocate-IsReplayed s h = h

  -- After any operations on the graph, those that fail included, a rebuild of the projection from the
  -- log gives the store as it is, the next id included.
  pub rebuild_projection-run_calls :
      (cs : List (TaskCall × Actor))
      → rebuild_projection (run_calls clock cs empty_store) ≡ run_calls clock cs empty_store
  unfolding rebuild_projection replay
  rebuild_projection-run_calls cs =
      let s = run_calls clock cs empty_store in
      ap (λ (p : Projection). record s { projection = p })
        (run_calls-keeps clock IsReplayed
          (λ t id event actor plain. emit-IsReplayed t id event actor)
          (create-keeps clock IsReplayed emit-IsReplayed allocate-IsReplayed)
          (add_dependency-keeps clock IsReplayed emit-IsReplayed allocate-IsReplayed) cs empty_store
          refl)
