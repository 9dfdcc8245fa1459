-- ===== src/TuiKit/Editor/State.antt =====
-- packages/tui-kit/src/editor.ts: the state of the editor, its construction and inspection.
use qwen_harness.Prelude.{
  ℕ, Bool, false, List, [], ◌∷◌, Option, none, some, Text, get_elem?, join, length, ◌-◌,
  if◌then◌else◌,
}
use qwen_harness.TuiKit.Unicode.{Unicode, to_graphemes, grapheme_count}

pub data VimMode : Type 0 where
  insert normal : VimMode

-- What plain Enter does: `enter` or `ctrl-enter`.
pub data SubmitKey : Type 0 where
  enter ctrl_enter : SubmitKey

pub record EditorConfig : Type 0 where
  pub submit_key : SubmitKey
  pub max_undo : ℕ
  pub max_history : ℕ
  pub vim : Bool

abbrev pub default_editor_config : EditorConfig
default_editor_config = record {
  submit_key = enter;
  max_undo = 200;
  max_history = 1000;
  vim = false;
}

pub record Cursor : Type 0 where
  pub row : ℕ
  pub col : ℕ

pub record Snapshot : Type 0 where
  pub lines : List Text
  pub cursor : Cursor
  pub anchor : Option Cursor

-- The three fields that a snapshot holds stand in one here, the buffer.
pub record EditorState : Type 0 where
  pub buffer : Snapshot
  pub register : Text
  pub undo_stack : List Snapshot
  pub redo_stack : List Snapshot
  pub history : List Text
  pub history_index : Option ℕ
  pub draft : Option Text
  pub config : EditorConfig
  pub vim_mode : VimMode

abbrev pub origin : Cursor
origin = record { row = 0; col = 0 }

abbrev pub empty_buffer : Snapshot
empty_buffer = record { lines = [] ∷ []; cursor = origin; anchor = none }

-- The mode in which the editor starts.
abbrev pub first_mode : Bool → VimMode
first_mode vim = if vim then normal else insert

-- The missing fields of a partial configuration are put in by the caller.
unfoldable pub create_editor : EditorConfig → EditorState
create_editor config = record {
  buffer = empty_buffer;
  register = [];
  undo_stack = [];
  redo_stack = [];
  history = [];
  history_index = none;
  draft = none;
  config = config;
  vim_mode = first_mode config.vim;
}

-- `\n`
abbrev pub nl : ℕ
nl = 10

unfoldable pub buffer_text : EditorState → Text
buffer_text s = join (nl ∷ []) s.buffer.lines

unfoldable pub with_history : EditorState → List Text → EditorState
with_history s entries = record s { history = entries }

-- `text ?? ''`
abbrev pub or_empty : Option Text → Text
or_empty none = []
or_empty (some text) = text

-- `lines[row] ?? ''`
unfoldable pub line_at : List Text → ℕ → Text
line_at lines row = or_empty (get_elem? lines row)

module _ (unicode : Unicode) where
  unfoldable pub line_graphemes : EditorState → ℕ → List Text
  line_graphemes s row = to_graphemes unicode (line_at s.buffer.lines row)

  unfoldable pub line_len : EditorState → ℕ → ℕ
  line_len s row = grapheme_count unicode (line_at s.buffer.lines row)

unfoldable pub last_row : EditorState → ℕ
last_row s = length s.buffer.lines - 1
