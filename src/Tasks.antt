-- ===== src/Tasks.antt =====
-- packages/tasks/src: the state machine and the dependencies of the durable task graph.
pub mod StateMachine
pub mod Dependencies
pub mod TaskStore
pub mod TaskGraph
mod Examples
