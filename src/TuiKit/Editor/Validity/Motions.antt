-- ===== src/TuiKit/Editor/Validity/Motions.antt =====
-- packages/tui-kit/src/editor.ts: the motions keep a state valid.
use qwen_harness.Prelude.{
  ℕ, suc, ◌+◌, ◌-◌, ◌≤◌, ◌<◌, Bool, true, false, not, List, [], ◌∷◌, Option, none, some, Text, ◌≡◌,
  arith, length, ltb, leb, ◌==◌, Bool-cases, inl, inr, ltb→lt, leb_false→lt, take, drop, reverse,
}
use qwen_harness.TuiKit.Unicode.{Unicode, grapheme_count, to_graphemes}
use qwen_harness.TuiKit.Editor.State.{
  Cursor, EditorState, line_at, line_graphemes, line_len, last_row,
}
use qwen_harness.TuiKit.Editor.Motions.{
  anchor_or, move_to, advance, retreat, is_word_grapheme, word_end, word_start, left_of, right_of,
  above, below, right_word, left_word, move_left, move_right, move_up, move_down, move_line_end,
  move_buffer_end, move_word_right, move_word_left, move_line_start, move_buffer_start,
}
use qwen_harness.TuiKit.Editor.Validity.{InLines, AnchorInLines, IsValid, length-drop}

advance_bound : (test : Text → Bool) (gs : List Text) (i : ℕ) → advance test gs i ≤ i + length gs
unfolding advance
advance_bound test [] i = omega arith
advance_bound test (g ∷ gs) i = ground (arith, advance_bound test gs (suc i))

retreat_bound : (test : Text → Bool) (gs : List Text) (i : ℕ) → retreat test gs i ≤ i
unfolding retreat
retreat_bound test [] i = omega arith
retreat_bound test (g ∷ gs) i = ground (arith, retreat_bound test gs (i - 1))

module _ (unicode : Unicode) where
  word_end_bound :
      (gs : List Text) (col : ℕ) → col ≤ length gs → word_end unicode gs col ≤ length gs
  unfolding word_end
  word_end_bound gs col h =
      let spaces = λ (g : Text). not (is_word_grapheme unicode g) in
      let skipped = advance spaces (drop col gs) col in
      let first : skipped ≤ length gs =
        omega (arith, h, advance_bound spaces (drop col gs) col, length-drop col gs) in
      omega (
        arith,
        first,
        advance_bound (is_word_grapheme unicode) (drop skipped gs) skipped,
        length-drop skipped gs,
      )

  word_start_bound : (gs : List Text) (col : ℕ) → word_start unicode gs col ≤ col
  unfolding word_start
  word_start_bound gs col =
      let spaces = λ (g : Text). not (is_word_grapheme unicode g) in
      let skipped = retreat spaces (reverse (take col gs)) col in
      omega (
        arith,
        retreat_bound spaces (reverse (take col gs)) col,
        retreat_bound (is_word_grapheme unicode) (reverse (take skipped gs)) skipped,
      )

  anchor_or-InLines :
      (lines : List Text) (anchor : Option Cursor) (cursor : Cursor)
      → AnchorInLines unicode lines anchor
      → InLines unicode lines cursor
      → InLines unicode lines (anchor_or anchor cursor)
  anchor_or-InLines lines none cursor a c = c
  anchor_or-InLines lines (some anchor) cursor a c = a

  move_to-IsValid :
      (s : EditorState) (target : Cursor) (select : Bool)
      → IsValid unicode s
      → InLines unicode s.buffer.lines target
      → IsValid unicode (move_to s target select)
  unfolding move_to
  move_to-IsValid s target true v h = record {
    sound =
        (h, anchor_or-InLines s.buffer.lines s.buffer.anchor s.buffer.cursor v.sound.1 v.sound.0);
    undo_sound = v.undo_sound;
    redo_sound = v.redo_sound;
    undo_bound = v.undo_bound;
    redo_bound = v.redo_bound;
  }
  move_to-IsValid s target false v h = record {
    sound = (h, _);
    undo_sound = v.undo_sound;
    redo_sound = v.redo_sound;
    undo_bound = v.undo_bound;
    redo_bound = v.redo_bound;
  }

  -- The targets of the motions lie in the buffer.
  module _ (s : EditorState) (v : IsValid unicode s) where
    abbrev IsTarget : Cursor → Type 0
    IsTarget c = InLines unicode s.buffer.lines c

    line_end-IsTarget :
        (row : ℕ)
        → row < length s.buffer.lines
        → IsTarget (record { row = row; col = line_len unicode s row })
    unfolding line_len
    line_end-IsTarget row h = (h, omega arith)

    line_start-IsTarget :
        (row : ℕ) → row < length s.buffer.lines → IsTarget (record { row = row; col = 0 })
    line_start-IsTarget row h = (h, omega arith)

    last_row-lt : last_row s < length s.buffer.lines
    unfolding last_row
    last_row-lt = omega (arith, v.sound.0.0)

    under_last : (row : ℕ) → ltb row (last_row s) ≡ true → row + 1 < length s.buffer.lines
    under_last row t = omega (arith, ltb→lt row (last_row s) t, last_row-lt)

    left_of-IsTarget : IsTarget (left_of unicode s)
    unfolding left_of
    left_of-IsTarget =
        let (inside, fits) = v.sound.0 in
        elim (Bool-cases (ltb 0 s.buffer.cursor.col)) [
          | inl t ↦ rw t (inside, omega (arith, fits))
          | inr f ↦ elim (Bool-cases (ltb 0 s.buffer.cursor.row)) [
            | inl t ↦
                rw (f, t) (line_end-IsTarget (s.buffer.cursor.row - 1) (omega (arith, inside)))
            | inr g ↦ rw (f, g) v.sound.0
          ]
        ]

    right_of-IsTarget : IsTarget (right_of unicode s)
    unfolding right_of line_len
    right_of-IsTarget =
        let row = s.buffer.cursor.row in
        let col = s.buffer.cursor.col in
        elim (Bool-cases (ltb col (line_len unicode s row))) [
          | inl t ↦ rw t (v.sound.0.0, omega (arith, ltb→lt col _ t))
          | inr f ↦ elim (Bool-cases (ltb row (last_row s))) [
            | inl t ↦ rw (f, t) (line_start-IsTarget (row + 1) (under_last row t))
            | inr g ↦ rw (f, g) v.sound.0
          ]
        ]

    above-IsTarget : IsTarget (above unicode s)
    unfolding above line_len
    above-IsTarget =
        let row = s.buffer.cursor.row in
        let inside = v.sound.0.0 in
        elim (Bool-cases (row == 0)) [
          | inl t ↦ rw t (omega (arith, inside), omega arith)
          | inr f ↦ rw f (omega (arith, inside), omega arith)
        ]

    below-IsTarget : IsTarget (below unicode s)
    unfolding below line_len
    below-IsTarget =
        let row = s.buffer.cursor.row in
        elim (Bool-cases (leb (last_row s) row)) [
          | inl t ↦ rw t (line_end-IsTarget row v.sound.0.0)
          | inr f ↦ rw f (omega (arith, leb_false→lt (last_row s) row f, last_row-lt), omega arith)
        ]

    right_word-IsTarget : IsTarget (right_word unicode s)
    unfolding right_word line_graphemes grapheme_count
    right_word-IsTarget =
        let row = s.buffer.cursor.row in
        let col = s.buffer.cursor.col in
        let gs = to_graphemes unicode (line_at s.buffer.lines row) in
        elim (Bool-cases (leb (length gs) col)) [
          | inl t ↦ elim (Bool-cases (ltb row (last_row s))) [
            | inl u ↦ rw (t, u) (line_start-IsTarget (row + 1) (under_last row u))
            | inr g ↦ rw (t, g) v.sound.0
          ]
          | inr f ↦ rw f (v.sound.0.0, word_end_bound gs col (omega (arith, v.sound.0.1)))
        ]

    left_word-IsTarget : IsTarget (left_word unicode s)
    unfolding left_word line_graphemes
    left_word-IsTarget =
        let row = s.buffer.cursor.row in
        let col = s.buffer.cursor.col in
        let (inside, fits) = v.sound.0 in
        elim (Bool-cases (col == 0)) [
          | inl t ↦ elim (Bool-cases (ltb 0 row)) [
            | inl u ↦ rw (t, u) (line_end-IsTarget (row - 1) (omega (arith, inside)))
            | inr g ↦ rw (t, g) v.sound.0
          ]
          | inr f ↦ rw f (
            inside,
            omega (
              arith,
              fits,
              word_start_bound (to_graphemes unicode (line_at s.buffer.lines row)) col,
            ),
          )
        ]

    pub move_left-IsValid : (select : Bool) → IsValid unicode (move_left unicode s select)
    unfolding move_left
    move_left-IsValid select = move_to-IsValid s _ select v left_of-IsTarget

    pub move_right-IsValid : (select : Bool) → IsValid unicode (move_right unicode s select)
    unfolding move_right
    move_right-IsValid select = move_to-IsValid s _ select v right_of-IsTarget

    pub move_up-IsValid : (select : Bool) → IsValid unicode (move_up unicode s select)
    unfolding move_up
    move_up-IsValid select = move_to-IsValid s _ select v above-IsTarget

    pub move_down-IsValid : (select : Bool) → IsValid unicode (move_down unicode s select)
    unfolding move_down
    move_down-IsValid select = move_to-IsValid s _ select v below-IsTarget

    pub move_line_end-IsValid : (select : Bool) → IsValid unicode (move_line_end unicode s select)
    unfolding move_line_end
    move_line_end-IsValid select =
        move_to-IsValid s _ select v (line_end-IsTarget s.buffer.cursor.row v.sound.0.0)

    pub move_buffer_end-IsValid :
        (select : Bool) → IsValid unicode (move_buffer_end unicode s select)
    unfolding move_buffer_end
    move_buffer_end-IsValid select =
        move_to-IsValid s _ select v (line_end-IsTarget (last_row s) last_row-lt)

    pub move_word_right-IsValid :
        (select : Bool) → IsValid unicode (move_word_right unicode s select)
    unfolding move_word_right
    move_word_right-IsValid select = move_to-IsValid s _ select v right_word-IsTarget

    pub move_word_left-IsValid : (select : Bool) → IsValid unicode (move_word_left unicode s select)
    unfolding move_word_left
    move_word_left-IsValid select = move_to-IsValid s _ select v left_word-IsTarget

    pub move_line_start-IsValid : (select : Bool) → IsValid unicode (move_line_start s select)
    unfolding move_line_start
    move_line_start-IsValid select =
        move_to-IsValid s _ select v (line_start-IsTarget s.buffer.cursor.row v.sound.0.0)

    pub move_buffer_start-IsValid : (select : Bool) → IsValid unicode (move_buffer_start s select)
    unfolding move_buffer_start
    move_buffer_start-IsValid select =
        move_to-IsValid s _ select v (line_start-IsTarget 0 (omega (arith, v.sound.0.0)))
