-- ===== src/TuiKit/Editor/Motions.antt =====
-- packages/tui-kit/src/editor.ts: the motions of the cursor.
use qwen_harness.Prelude.{
  ℕ, suc, ◌+◌, ◌-◌, min, Bool, not, ◌||◌, List, [], ◌∷◌, Option, none, some, Text, str, text_eq,
  ◌==◌, leb, ltb, if◌then◌else◌, take, drop, length, reverse,
}
use qwen_harness.TuiKit.Unicode.{Unicode}
use qwen_harness.TuiKit.Editor.State.{
  Cursor, EditorState, origin, line_graphemes, line_len, last_row,
}

-- `state.anchor ?? state.cursor`
abbrev pub anchor_or : Option Cursor → Cursor → Cursor
anchor_or none cursor = cursor
anchor_or (some anchor) cursor = anchor

unfoldable pub move_to : EditorState → Cursor → Bool → EditorState
move_to s target select = record s {
  buffer = record s.buffer {
    cursor = target;
    anchor = if select then some (anchor_or s.buffer.anchor s.buffer.cursor) else none;
  };
}

-- The two loops of a word motion over the graphemes behind the cursor, and over those before it, the
-- nearest first.
unfoldable pub advance : (Text → Bool) → List Text → ℕ → ℕ
advance test [] i = i
advance test (g ∷ gs) i = let further = advance test gs (suc i) in if test g then further else i

unfoldable pub retreat : (Text → Bool) → List Text → ℕ → ℕ
retreat test [] i = i
retreat test (g ∷ gs) i = let further = retreat test gs (i - 1) in if test g then further else i

module _ (unicode : Unicode) where
  unfoldable pub is_word_grapheme : Text → Bool
  is_word_grapheme g = text_eq g (str "_") || unicode.has_letter_or_number g

  -- Where a word motion to the right ends in a line, and one to the left.
  unfoldable pub word_end : List Text → ℕ → ℕ
  unfolding advance
  word_end gs col =
      let skipped = advance (λ g. not (is_word_grapheme g)) (drop col gs) col in
      advance is_word_grapheme (drop skipped gs) skipped

  unfoldable pub word_start : List Text → ℕ → ℕ
  unfolding retreat
  word_start gs col =
      let skipped = retreat (λ g. not (is_word_grapheme g)) (reverse (take col gs)) col in
      retreat is_word_grapheme (reverse (take skipped gs)) skipped

  -- The targets of the motions.
  unfoldable pub left_of : EditorState → Cursor
  unfolding line_len
  left_of s =
      let row = s.buffer.cursor.row in
      let col = s.buffer.cursor.col in
      if ltb 0 col
      then record { row = row; col = col - 1 }
      else if ltb 0 row
      then record { row = row - 1; col = line_len unicode s (row - 1) }
      else s.buffer.cursor

  unfoldable pub right_of : EditorState → Cursor
  unfolding line_len last_row
  right_of s =
      let row = s.buffer.cursor.row in
      let col = s.buffer.cursor.col in
      if ltb col (line_len unicode s row)
      then record { row = row; col = col + 1 }
      else if ltb row (last_row s)
      then record { row = row + 1; col = 0 }
      else s.buffer.cursor

  unfoldable pub above : EditorState → Cursor
  unfolding line_len
  above s =
      let row = s.buffer.cursor.row in
      if row == 0
      then origin
      else record { row = row - 1; col = min s.buffer.cursor.col (line_len unicode s (row - 1)) }

  unfoldable pub below : EditorState → Cursor
  unfolding line_len last_row
  below s =
      let row = s.buffer.cursor.row in
      if leb (last_row s) row
      then record { row = row; col = line_len unicode s row }
      else record { row = row + 1; col = min s.buffer.cursor.col (line_len unicode s (row + 1)) }

  unfoldable pub right_word : EditorState → Cursor
  unfolding line_graphemes last_row word_end
  right_word s =
      let row = s.buffer.cursor.row in
      let col = s.buffer.cursor.col in
      let gs = line_graphemes unicode s row in
      if leb (length gs) col
      then (if ltb row (last_row s) then record { row = row + 1; col = 0 } else s.buffer.cursor)
      else record { row = row; col = word_end gs col }

  unfoldable pub left_word : EditorState → Cursor
  unfolding line_graphemes line_len word_start
  left_word s =
      let row = s.buffer.cursor.row in
      let col = s.buffer.cursor.col in
      if col == 0
      then (if ltb 0 row
          then record { row = row - 1; col = line_len unicode s (row - 1) }
          else s.buffer.cursor)
      else record { row = row; col = word_start (line_graphemes unicode s row) col }

  unfoldable pub move_left : EditorState → Bool → EditorState
  unfolding move_to left_of
  move_left s select = move_to s (left_of s) select

  unfoldable pub move_right : EditorState → Bool → EditorState
  unfolding move_to right_of
  move_right s select = move_to s (right_of s) select

  unfoldable pub move_up : EditorState → Bool → EditorState
  unfolding move_to above
  move_up s select = move_to s (above s) select

  unfoldable pub move_down : EditorState → Bool → EditorState
  unfolding move_to below
  move_down s select = move_to s (below s) select

  unfoldable pub move_line_end : EditorState → Bool → EditorState
  unfolding move_to line_len
  move_line_end s select =
      let row = s.buffer.cursor.row in
      move_to s (record { row = row; col = line_len unicode s row }) select

  unfoldable pub move_buffer_end : EditorState → Bool → EditorState
  unfolding move_to line_len last_row
  move_buffer_end s select =
      let row = last_row s in move_to s (record { row = row; col = line_len unicode s row }) select

  unfoldable pub move_word_right : EditorState → Bool → EditorState
  unfolding move_to right_word
  move_word_right s select = move_to s (right_word s) select

  unfoldable pub move_word_left : EditorState → Bool → EditorState
  unfolding move_to left_word
  move_word_left s select = move_to s (left_word s) select

unfoldable pub move_line_start : EditorState → Bool → EditorState
unfolding move_to
move_line_start s select = move_to s (record { row = s.buffer.cursor.row; col = 0 }) select

unfoldable pub move_buffer_start : EditorState → Bool → EditorState
unfolding move_to
move_buffer_start s select = move_to s origin select
