-- ===== src/Runtime.antt =====
-- packages/runtime/src: the budgets of a turn and the machine of its states.
pub mod Budget
pub mod TurnMachine
mod Examples
