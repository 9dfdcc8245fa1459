-- ===== src/TuiKit.antt =====
-- packages/tui-kit/src: the input editor as a pure state machine, and the graphemes it moves over.
pub mod Unicode
pub mod Editor
mod Examples
