-- ===== src/TuiKit/Editor/Edits.antt =====
-- packages/tui-kit/src/editor.ts: the mutations of the text, the selection and the register, and the
-- two stacks of snapshots.
use qwen_harness.Prelude.{
  ℕ, zero, suc, ◌+◌, ◌-◌, List, [], ◌∷◌, ◌++◌, Option, none, some, Text, ◌==◌, ltb, if◌then◌else◌,
  join, take,
}
use qwen_harness.TuiKit.Unicode.{Unicode, slice_to, slice_from}
use qwen_harness.TuiKit.Editor.State.{
  Cursor, Snapshot, EditorState, nl, line_at, line_graphemes, line_len, last_row,
}
use qwen_harness.TuiKit.Editor.Buffer.{ordered, replace_range, bounded, commit}

-- The two ends of the range that an insertion replaces.
unfoldable pub selected_range : Option Cursor → Cursor → Cursor × Cursor
unfolding ordered
selected_range none cursor = (cursor, cursor)
selected_range (some anchor) cursor = ordered anchor cursor

-- The last element of an array and the others: `xs[xs.length - 1]` and `xs.slice(0, -1)`.
abbrev pub pop {ℓ} : {A : Type ℓ} → List A → Option (List A × A)
pop [] = none
pop (x ∷ []) = some ([], x)
pop (x ∷ y ∷ xs) = elim (pop (y ∷ xs)) [ none ↦ none | some (rest, last) ↦ some (x ∷ rest, last) ]

-- `n` lines from a row on.
lines_from : List Text → ℕ → ℕ → List Text
unfolding line_at
lines_from lines row zero = []
lines_from lines row (suc n) = line_at lines row ∷ lines_from lines (suc row) n

module _ (unicode : Unicode) where
  -- A range gives way to a text, and nothing is selected any more.
  unfoldable pub edit : EditorState → Cursor → Cursor → Text → EditorState
  unfolding replace_range commit
  edit s start end' text = commit s (replace_range unicode s.buffer.lines start end' text) none

  unfoldable pub insert_text : EditorState → Text → EditorState
  unfolding selected_range edit
  insert_text s text =
      let (start, end') = selected_range s.buffer.anchor s.buffer.cursor in edit s start end' text

  unfoldable pub paste : EditorState → Text → EditorState
  unfolding insert_text
  paste s text = insert_text s text

  unfoldable pub newline : EditorState → EditorState
  unfolding insert_text
  newline s = insert_text s (nl ∷ [])

  -- The part behind the test of `state.anchor`.
  unfoldable pub delete_range : EditorState → Option Cursor → EditorState
  unfolding ordered edit
  delete_range s none = s
  delete_range s (some anchor) =
      let (start, end') = ordered anchor s.buffer.cursor in edit s start end' []

  unfoldable pub delete_selection : EditorState → EditorState
  unfolding delete_range
  delete_selection s = delete_range s s.buffer.anchor

  -- `backspace` with nothing selected
  unfoldable pub delete_before : EditorState → EditorState
  unfolding edit line_len
  delete_before s =
      let row = s.buffer.cursor.row in
      let col = s.buffer.cursor.col in
      if ltb 0 col
      then edit s (record { row = row; col = col - 1 }) (record { row = row; col = col }) []
      else if ltb 0 row
      then edit s (record { row = row - 1; col = line_len unicode s (row - 1) })
          (record { row = row; col = 0 }) []
      else s

  -- `deleteForward` with nothing selected
  unfoldable pub delete_after : EditorState → EditorState
  unfolding edit line_len last_row
  delete_after s =
      let row = s.buffer.cursor.row in
      let col = s.buffer.cursor.col in
      if ltb col (line_len unicode s row)
      then edit s (record { row = row; col = col }) (record { row = row; col = col + 1 }) []
      else if ltb row (last_row s)
      then edit s (record { row = row; col = col }) (record { row = row + 1; col = 0 }) []
      else s

  -- `if (state.anchor) return deleteSelection(state);`
  unfoldable pub unless_selected :
      (EditorState → EditorState) → EditorState → Option Cursor → EditorState
  unfolding delete_range
  unless_selected f s none = f s
  unless_selected f s (some anchor) = delete_range s (some anchor)

  unfoldable pub backspace : EditorState → EditorState
  unfolding delete_before unless_selected
  backspace s = unless_selected delete_before s s.buffer.anchor

  unfoldable pub delete_forward : EditorState → EditorState
  unfolding delete_after unless_selected
  delete_forward s = unless_selected delete_after s s.buffer.anchor

  -- The text between two ordered cursors.
  unfoldable pub text_between : EditorState → Cursor → Cursor → Text
  unfolding line_graphemes lines_from
  text_between s start end' =
      let first = line_graphemes unicode s start.row in
      if start.row == end'.row
      then slice_from (take end'.col first) start.col
      else join (nl ∷ []) (
          slice_from first start.col
          ∷ (lines_from s.buffer.lines (suc start.row) (end'.row - start.row - 1)
              ++ slice_to (line_graphemes unicode s end'.row) end'.col ∷ []))

  unfoldable pub selection_of : EditorState → Option Cursor → Text
  unfolding text_between ordered
  selection_of s none = []
  selection_of s (some anchor) =
      let (start, end') = ordered anchor s.buffer.cursor in text_between s start end'

  unfoldable pub selected_text : EditorState → Text
  unfolding selection_of
  selected_text s = selection_of s s.buffer.anchor

  unfoldable pub copy_range : EditorState → Option Cursor → EditorState
  unfolding selected_text
  copy_range s none = s
  copy_range s (some anchor) = record s { register = selected_text s }

  unfoldable pub copy_selection : EditorState → EditorState
  unfolding copy_range
  copy_selection s = copy_range s s.buffer.anchor

  unfoldable pub cut : EditorState → EditorState
  unfolding copy_selection delete_selection
  cut s = delete_selection (copy_selection s)

  unfoldable pub paste_register : EditorState → EditorState
  unfolding insert_text
  paste_register s = insert_text s s.register

unfoldable pub clear_selection : EditorState → EditorState
clear_selection s = record s { buffer = record s.buffer { anchor = none } }

unfoldable pub undo_to : EditorState → Option (List Snapshot × Snapshot) → EditorState
undo_to s none = s
undo_to s (some (rest, previous)) = record s {
  buffer = previous;
  undo_stack = rest;
  redo_stack = bounded (s.redo_stack ++ s.buffer ∷ []) s.config.max_undo;
}

unfoldable pub undo : EditorState → EditorState
unfolding undo_to
undo s = undo_to s (pop s.undo_stack)

unfoldable pub redo_to : EditorState → Option (List Snapshot × Snapshot) → EditorState
redo_to s none = s
redo_to s (some (rest, next)) = record s {
  buffer = next;
  redo_stack = rest;
  undo_stack = bounded (s.undo_stack ++ s.buffer ∷ []) s.config.max_undo;
}

unfoldable pub redo : EditorState → EditorState
unfolding redo_to
redo s = redo_to s (pop s.redo_stack)
