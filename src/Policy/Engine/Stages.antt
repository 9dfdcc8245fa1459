-- ===== src/Policy/Engine/Stages.antt =====
-- packages/policy/src/engine.ts: the types of the engine and its stages 1 to 6.
mod Types
mod Profile
mod Loosening
mod Ceiling
pub use Types.*
unfoldable pub use Profile.*
unfoldable pub use Loosening.*
unfoldable pub use Ceiling.*
