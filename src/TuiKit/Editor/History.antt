-- ===== src/TuiKit/Editor/History.antt =====
-- packages/tui-kit/src/editor.ts: the history of submissions, and the submission of the buffer.
use qwen_harness.Prelude.{
  ℕ, suc, ◌-◌, Bool, false, ◌||◌, List, [], ◌∷◌, ◌++◌, Option, none, some, Text, text_eq,
  starts_with, ltb, if◌then◌else◌, split, length, get_elem?, is_empty, reverse,
}
use qwen_harness.TuiKit.Unicode.{Unicode, grapheme_count}
use qwen_harness.TuiKit.Editor.State.{
  EditorState, SubmitKey, enter, ctrl_enter, nl, empty_buffer, first_mode, buffer_text, line_at,
  or_empty,
}
use qwen_harness.TuiKit.Editor.Buffer.{bounded}

module _ (unicode : Unicode) where
  unfoldable pub load_buffer : EditorState → Text → Option ℕ → Option Text → EditorState
  unfolding line_at
  load_buffer s text index draft =
      let lines = split text nl in
      let row = length lines - 1 in
      record s {
        buffer = record {
          lines = lines;
          cursor = record { row = row; col = grapheme_count unicode (line_at lines row) };
          anchor = none;
        };
        history_index = index;
        draft = draft;
      }

  -- From the live draft to the newest entry, or to the one before.
  unfoldable pub prev_from : EditorState → Option ℕ → EditorState
  unfolding load_buffer buffer_text
  prev_from s none =
      let index = length s.history - 1 in
      load_buffer s (or_empty (get_elem? s.history index)) (some index) (some (buffer_text s))
  prev_from s (some i) =
      let index = i - 1 in load_buffer s (or_empty (get_elem? s.history index)) (some index) s.draft

  unfoldable pub history_prev : EditorState → EditorState
  unfolding prev_from
  history_prev s = if is_empty s.history then s else prev_from s s.history_index

  unfoldable pub next_from : EditorState → Option ℕ → EditorState
  unfolding load_buffer
  next_from s none = s
  next_from s (some i) =
      let index = suc i in
      if ltb (length s.history - 1) index
      then load_buffer s (or_empty s.draft) none none
      else load_buffer s (or_empty (get_elem? s.history index)) (some index) s.draft

  unfoldable pub history_next : EditorState → EditorState
  unfolding next_from
  history_next s = next_from s s.history_index

  -- `s.includes(part)`
  contains : Text → Text → Bool
  contains [] part = starts_with [] part
  contains (c ∷ s) part = starts_with (c ∷ s) part || contains s part

  -- The loop from the newest entry, which stands first here.
  search_from : Text → List Text → List (ℕ × Text)
  unfolding contains
  search_from needle [] = []
  search_from needle (entry ∷ older) =
      let found = search_from needle older in
      if is_empty needle || contains (unicode.to_lower_case entry) needle
      then (length older, entry) ∷ found
      else found

  unfoldable pub history_search : EditorState → Text → List (ℕ × Text)
  unfolding search_from
  history_search s query = search_from (unicode.to_lower_case query) (reverse s.history)

-- `history[history.length - 1] === text`, false on an empty history
unfoldable pub ends_with_entry : List Text → Text → Bool
ends_with_entry [] text = false
ends_with_entry (entry ∷ []) text = text_eq entry text
ends_with_entry (entry ∷ next ∷ more) text = ends_with_entry (next ∷ more) text

unfoldable pub append_history : List Text → Text → ℕ → List Text
unfolding ends_with_entry
append_history history text max_history =
    if ends_with_entry history text then history else bounded (history ++ text ∷ []) max_history

unfoldable pub submit : EditorState → EditorState × Option Text
unfolding buffer_text append_history
submit s =
    let text = buffer_text s in
    let empty = is_empty text in
    (
      record s {
        buffer = empty_buffer;
        undo_stack = [];
        redo_stack = [];
        history = if empty then s.history else append_history s.history text s.config.max_history;
        history_index = none;
        draft = none;
        vim_mode = first_mode s.config.vim;
      },
      if empty then none else some text,
    )

pub data EnterAction : Type 0 where
  submit_buffer insert_newline : EnterAction

unfoldable pub resolve_enter : SubmitKey → Bool → EnterAction
resolve_enter enter with_modifier = if with_modifier then insert_newline else submit_buffer
resolve_enter ctrl_enter with_modifier = if with_modifier then submit_buffer else insert_newline
