-- ===== src/Tools.antt =====
-- packages/tools-core/src: the contract of a tool and the batching of the calls of one model output.
pub mod Contract
pub mod Scheduler
mod Examples
