-- ===== src/TuiKit/Editor.antt =====
-- packages/tui-kit/src/editor.ts: the input editor. An operation is a function from a state to a
-- state, as in the source. The projection for the terminal (renderEditor) is left out.
pub mod State
pub mod Buffer
pub mod Edits
pub mod Motions
pub mod History
pub mod Vim
pub mod Stacks
pub mod Validity
pub mod Undoing
pub mod Browsing
pub mod FlatText
