-- ===== src/Hooks.antt =====
-- packages/hooks: the hooks that observe a turn and may restrict what it does.
pub mod Outcome
pub mod Registration
pub mod Registry
pub mod Invoke
pub mod Fold
pub mod Reentry
mod Examples
