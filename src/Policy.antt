-- ===== src/Policy.antt =====
-- packages/policy/src: the permission engine and what it is built from.
pub mod Action
pub mod Paths
pub mod Matcher
pub mod Effect
pub mod Rules
pub mod Managed
pub mod Grants
pub mod Engine
pub mod Authority
mod Examples
