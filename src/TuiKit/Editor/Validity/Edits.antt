-- ===== src/TuiKit/Editor/Validity/Edits.antt =====
-- packages/tui-kit/src/editor.ts: the edits and the two stacks keep a state valid.
use qwen_harness.Prelude.{
  ◌<◌, List, [], ◌∷◌, ◌++◌, Option, none, some, Text, ◌≡◌, refl, ap, arith, length, ltb, Bool-cases,
  inl, inr,
}
use qwen_harness.TuiKit.Unicode.{Unicode}
use qwen_harness.TuiKit.Editor.State.{Cursor, EditorState, line_len, last_row}
use qwen_harness.TuiKit.Editor.Buffer.{precedes, ordered}
use qwen_harness.TuiKit.Editor.Edits.{
  selected_range, edit, insert_text, delete_range, delete_selection, delete_before, delete_after,
  unless_selected, backspace, delete_forward, copy_range, copy_selection, cut, clear_selection,
  undo_to, undo, redo_to, redo,
}
use qwen_harness.TuiKit.Editor.Stacks.{pop-cases, length-append_last, All-append_last}
use qwen_harness.TuiKit.Editor.Validity.{
  InLines, AnchorInLines, IsSound, IsValid, All-append, All-bounded, length-bounded,
  replace_range-InLines, commit-IsValid,
}

module _ (unicode : Unicode) where
  ordered-InLines :
      (lines : List Text) (a b : Cursor)
      → InLines unicode lines a
      → InLines unicode lines b
      → InLines unicode lines (ordered a b).0 × InLines unicode lines (ordered a b).1
  unfolding ordered
  ordered-InLines lines a b p q = elim (Bool-cases (precedes a b)) [
    | inl t ↦ rw t (p, q)
    | inr f ↦ rw f (q, p)
  ]

  edit-IsValid :
      (s : EditorState) (start end' : Cursor) (text : Text)
      → IsValid unicode s
      → start.row < length s.buffer.lines
      → IsValid unicode (edit unicode s start end' text)
  unfolding edit
  edit-IsValid s start end' text v h =
      commit-IsValid unicode s _ _ v
        (replace_range-InLines unicode s.buffer.lines start end' text h)

  delete_range-IsValid :
      (s : EditorState) (anchor : Option Cursor)
      → IsValid unicode s
      → AnchorInLines unicode s.buffer.lines anchor
      → IsValid unicode (delete_range unicode s anchor)
  unfolding delete_range
  delete_range-IsValid s none v a = v
  delete_range-IsValid s (some anchor) v a =
      let (start, end') = ordered-InLines s.buffer.lines anchor s.buffer.cursor a v.sound.0 in
      edit-IsValid s _ _ [] v start.0

  selected_range-InLines :
      (lines : List Text) (anchor : Option Cursor) (cursor : Cursor)
      → AnchorInLines unicode lines anchor
      → InLines unicode lines cursor
      → InLines unicode lines (selected_range anchor cursor).0
  unfolding selected_range
  selected_range-InLines lines none cursor a c = c
  selected_range-InLines lines (some anchor) cursor a c =
      (ordered-InLines lines anchor cursor a c).0

  pub insert_text-IsValid :
      (s : EditorState) (text : Text)
      → IsValid unicode s
      → IsValid unicode (insert_text unicode s text)
  unfolding insert_text
  insert_text-IsValid s text v =
      edit-IsValid s _ _ text v
        (selected_range-InLines s.buffer.lines s.buffer.anchor s.buffer.cursor v.sound.1
          v.sound.0).0

  pub delete_selection-IsValid :
      (s : EditorState) → IsValid unicode s → IsValid unicode (delete_selection unicode s)
  unfolding delete_selection
  delete_selection-IsValid s v = delete_range-IsValid s s.buffer.anchor v v.sound.1

  delete_before-IsValid :
      (s : EditorState) → IsValid unicode s → IsValid unicode (delete_before unicode s)
  unfolding delete_before
  delete_before-IsValid s v =
      let row = s.buffer.cursor.row in
      let inside = v.sound.0.0 in
      elim (Bool-cases (ltb 0 s.buffer.cursor.col)) [
        | inl t ↦ rw t (edit-IsValid s _ _ [] v inside)
        | inr f ↦ elim (Bool-cases (ltb 0 row)) [
          | inl t ↦ rw (f, t) (edit-IsValid s _ _ [] v (omega (arith, inside)))
          | inr g ↦ rw (f, g) v
        ]
      ]

  delete_after-IsValid :
      (s : EditorState) → IsValid unicode s → IsValid unicode (delete_after unicode s)
  unfolding delete_after
  delete_after-IsValid s v =
      let row = s.buffer.cursor.row in
      let inside = v.sound.0.0 in
      elim (Bool-cases (ltb s.buffer.cursor.col (line_len unicode s row))) [
        | inl t ↦ rw t (edit-IsValid s _ _ [] v inside)
        | inr f ↦ elim (Bool-cases (ltb row (last_row s))) [
          | inl t ↦ rw (f, t) (edit-IsValid s _ _ [] v inside)
          | inr g ↦ rw (f, g) v
        ]
      ]

  unless_selected-IsValid :
      (f : EditorState → EditorState) (s : EditorState) (anchor : Option Cursor)
      → IsValid unicode s
      → AnchorInLines unicode s.buffer.lines anchor
      → IsValid unicode (f s)
      → IsValid unicode (unless_selected unicode f s anchor)
  unfolding unless_selected
  unless_selected-IsValid f s none v a h = h
  unless_selected-IsValid f s (some anchor) v a h = delete_range-IsValid s (some anchor) v a

  pub backspace-IsValid :
      (s : EditorState) → IsValid unicode s → IsValid unicode (backspace unicode s)
  unfolding backspace
  backspace-IsValid s v =
      unless_selected-IsValid (delete_before unicode) s s.buffer.anchor v v.sound.1
        (delete_before-IsValid s v)

  pub delete_forward-IsValid :
      (s : EditorState) → IsValid unicode s → IsValid unicode (delete_forward unicode s)
  unfolding delete_forward
  delete_forward-IsValid s v =
      unless_selected-IsValid (delete_after unicode) s s.buffer.anchor v v.sound.1
        (delete_after-IsValid s v)

  -- A change of the register, or of anything but the buffer, the stacks and the bound.
  pub same-IsValid :
      (s t : EditorState)
      → IsValid unicode s
      → t.buffer ≡ s.buffer
      → t.undo_stack ≡ s.undo_stack
      → t.redo_stack ≡ s.redo_stack
      → t.config ≡ s.config
      → IsValid unicode t
  same-IsValid s t v b u r c = record {
    sound = rw b v.sound;
    undo_sound = rw u v.undo_sound;
    redo_sound = rw r v.redo_sound;
    undo_bound = rw (u, c) v.undo_bound;
    redo_bound = rw (r, c) v.redo_bound;
  }

  pub copy_selection-IsValid :
      (s : EditorState) → IsValid unicode s → IsValid unicode (copy_selection unicode s)
  unfolding copy_selection
  copy_selection-IsValid s v = go s.buffer.anchor
    where
      go : (anchor : Option Cursor) → IsValid unicode (copy_range unicode s anchor)
      go none = v
      go (some anchor) = same-IsValid s (copy_range unicode s (some anchor)) v refl refl refl refl

  pub cut-IsValid : (s : EditorState) → IsValid unicode s → IsValid unicode (cut unicode s)
  unfolding cut
  cut-IsValid s v = delete_selection-IsValid (copy_selection unicode s) (copy_selection-IsValid s v)

  pub clear_selection-IsValid :
      (s : EditorState) → IsValid unicode s → IsValid unicode (clear_selection s)
  unfolding clear_selection
  clear_selection-IsValid s v = record {
    sound = (v.sound.0, _);
    undo_sound = v.undo_sound;
    redo_sound = v.redo_sound;
    undo_bound = v.undo_bound;
    redo_bound = v.redo_bound;
  }

  pub undo-IsValid : (s : EditorState) → IsValid unicode s → IsValid unicode (undo s)
  unfolding undo undo_to
  undo-IsValid s v = elim (pop-cases s.undo_stack) [
    | inl e ↦ rw e v
    | inr (rest, last, e, q) ↦ rw e (
        let (older, top) = All-append_last (IsSound unicode) rest last (rw q at v.undo_sound) in
        let more =
          All-append (IsSound unicode) s.redo_stack (s.buffer ∷ []) v.redo_sound (v.sound, _) in
        record {
          sound = top;
          undo_sound = older;
          redo_sound = All-bounded (IsSound unicode) _ s.config.max_undo more;
          undo_bound = omega (arith, ap length q, length-append_last rest last, v.undo_bound);
          redo_bound = length-bounded (s.redo_stack ++ s.buffer ∷ []) s.config.max_undo;
        })
  ]

  pub redo-IsValid : (s : EditorState) → IsValid unicode s → IsValid unicode (redo s)
  unfolding redo redo_to
  redo-IsValid s v = elim (pop-cases s.redo_stack) [
    | inl e ↦ rw e v
    | inr (rest, last, e, q) ↦ rw e (
        let (older, top) = All-append_last (IsSound unicode) rest last (rw q at v.redo_sound) in
        let more =
          All-append (IsSound unicode) s.undo_stack (s.buffer ∷ []) v.undo_sound (v.sound, _) in
        record {
          sound = top;
          redo_sound = older;
          undo_sound = All-bounded (IsSound unicode) _ s.config.max_undo more;
          redo_bound = omega (arith, ap length q, length-append_last rest last, v.redo_bound);
          undo_bound = length-bounded (s.undo_stack ++ s.buffer ∷ []) s.config.max_undo;
        })
  ]
