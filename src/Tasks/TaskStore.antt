-- ===== src/Tasks/TaskStore.antt =====
-- packages/storage/src/task-store.ts: the log of task events and its projection. A table of the
-- database is a function or a list here, and JSON texts stand for themselves.
use qwen_harness.Prelude.{
  ℕ, ◌+◌, Bool, ◌&&◌, ◌||◌, List, [], ◌∷◌, ◌++◌, Option, none, some, Text, ◌==◌, ltb, if◌then◌else◌,
}
use qwen_harness.Protocol.{Actor}
use qwen_harness.Tasks.StateMachine.{TaskStatus}
use qwen_harness.Tasks.Dependencies.{DepEdge}

-- A row of `task_nodes`.
pub record StoredTask : Type 0 where
  pub subject : Text
  pub description : Text
  pub active_form : Text
  pub owner : Option Text
  pub status : TaskStatus
  pub metadata : Text
  pub version : ℕ
  pub created_at : ℕ
  pub updated_at : ℕ
  pub created_by : Actor

-- The payload of an event.
pub data TaskEvent : Type 0 where
  task_created :
      (subject description active_form : Text) (status : TaskStatus) (metadata : Text)
      (blocked_by : List ℕ)
      → TaskEvent
  task_claimed : (owner : Text) → TaskEvent
  task_released task_deleted : TaskEvent
  task_status_changed : (status : TaskStatus) → TaskEvent
  task_metadata_updated : (metadata : Text) → TaskEvent
  task_dependency_added : (blocker_id blocked_id : ℕ) → TaskEvent

-- A row of `task_events`; its place in the log is its `seq`.
pub record TaskEventRecord : Type 0 where
  pub task_id : ℕ
  pub event : TaskEvent
  pub actor : Actor
  pub timestamp : ℕ

pub record Projection : Type 0 where
  pub nodes : ℕ → Option StoredTask
  pub deps : List DepEdge

pub record TaskStore : Type 0 where
  pub projection : Projection
  pub log : List TaskEventRecord
  pub next_id : ℕ

abbrev pub empty_projection : Projection
empty_projection = record { nodes = λ id. none; deps = [] }

abbrev pub empty_store : TaskStore
empty_store = record { projection = empty_projection; log = []; next_id = 1 }

abbrev pub edge_before : DepEdge → DepEdge → Bool
edge_before d e =
    ltb d.blocker_id e.blocker_id || d.blocker_id == e.blocker_id && ltb d.blocked_id e.blocked_id

-- `INSERT OR IGNORE INTO task_deps`, into the rows in the order in which listDeps reads them.
unfoldable pub insert_dep : DepEdge → List DepEdge → List DepEdge
insert_dep d [] = d ∷ []
insert_dep d (e ∷ es) =
    let rest = insert_dep d es in
    if edge_before d e then d ∷ e ∷ es else if edge_before e d then e ∷ rest else e ∷ es

unfoldable pub insert_blockers : List ℕ → ℕ → List DepEdge → List DepEdge
unfolding insert_dep
insert_blockers [] id deps = deps
insert_blockers (b ∷ bs) id deps =
    insert_blockers bs id (insert_dep (record { blocker_id = b; blocked_id = id }) deps)

-- `UPDATE task_nodes ... WHERE id = ?`
abbrev pub update : (ℕ → Option StoredTask) → ℕ → (StoredTask → StoredTask) → ℕ → Option StoredTask
update nodes id f n =
    if n == id then elim (nodes id) [ none ↦ none | some t ↦ some (f t) ] else nodes n

-- `version = version + 1, updated_at = ?`
abbrev pub touched : ℕ → StoredTask → StoredTask
touched now t = record t { version = t.version + 1; updated_at = now }

unfoldable pub project_event : Projection → TaskEventRecord → Projection
unfolding insert_dep insert_blockers
project_event p r = elim r.event [
  | TaskEvent.task_created subject description active_form status metadata blocked_by ↦ record {
    nodes = λ n.
        if n == r.task_id
        then some (record {
          subject = subject;
          description = description;
          active_form = active_form;
          owner = none;
          status = status;
          metadata = metadata;
          version = 1;
          created_at = r.timestamp;
          updated_at = r.timestamp;
          created_by = r.actor;
        })
        else p.nodes n;
    deps = insert_blockers blocked_by r.task_id p.deps;
  }
  | TaskEvent.task_claimed owner ↦ record p {
    nodes =
        update p.nodes r.task_id
          (λ t. record (touched r.timestamp t) { owner = some owner; status = TaskStatus.claimed });
  }
  | TaskEvent.task_released ↦ record p {
    nodes =
        update p.nodes r.task_id
          (λ t. record (touched r.timestamp t) { owner = none; status = TaskStatus.released });
  }
  | TaskEvent.task_deleted ↦ record p {
    nodes =
        update p.nodes r.task_id
          (λ t. record (touched r.timestamp t) { owner = none; status = TaskStatus.deleted });
  }
  | TaskEvent.task_status_changed status ↦ record p {
    nodes = update p.nodes r.task_id (λ t. record (touched r.timestamp t) { status = status });
  }
  | TaskEvent.task_metadata_updated metadata ↦ record p {
    nodes = update p.nodes r.task_id (λ t. record (touched r.timestamp t) { metadata = metadata });
  }
  | TaskEvent.task_dependency_added blocker_id blocked_id ↦ record {
    nodes = update p.nodes blocked_id (touched r.timestamp);
    deps = insert_dep (record { blocker_id = blocker_id; blocked_id = blocked_id }) p.deps;
  }
]

-- The loop over the log.
unfoldable pub replay : Projection → List TaskEventRecord → Projection
unfolding project_event
replay p [] = p
replay p (r ∷ rs) = replay (project_event p r) rs

-- The log and the number of ids given are left as they are.
unfoldable pub rebuild_projection : TaskStore → TaskStore
unfolding replay
rebuild_projection s = record s { projection = replay empty_projection s.log }

-- The event appended to the log and projected; `now` is the clock's answer.
unfoldable pub apply_event : TaskStore → ℕ → TaskEvent → Actor → ℕ → TaskStore
unfolding project_event
apply_event s id event actor now =
    let r : TaskEventRecord = record {
      task_id = id;
      event = event;
      actor = actor;
      timestamp = now;
    } in
    record s { projection = project_event s.projection r; log = s.log ++ r ∷ [] }

unfoldable pub allocate_id : TaskStore → TaskStore
allocate_id s = record s { next_id = s.next_id + 1 }
