-- ===== src/TuiKit/Examples.antt =====
-- Runs of the editor at concrete inputs.
use qwen_harness.Prelude.{
  true, List, [], ◌∷◌, ◌++◌, some, Text, ◌==◌, ◌≡◌, refl, arith, split, join,
}
use qwen_harness.TuiKit.Unicode.{
  Unicode, to_graphemes, grapheme_count, is_extend, is_regional_indicator, slice_to, slice_from,
}
use qwen_harness.TuiKit.Editor.State.{
  Cursor, EditorState, line_at, default_editor_config, create_editor, buffer_text, with_history,
}
use qwen_harness.TuiKit.Editor.Edits.{insert_text, backspace}
use qwen_harness.TuiKit.Editor.History.{submit}
use qwen_harness.TuiKit.Editor.Validity.{IsValid}
use qwen_harness.TuiKit.Editor.Validity.Actions.{
  EditorAction, run_actions, run_actions-IsValid, typed, motion, left, back_space, undo_last,
}
use qwen_harness.TuiKit.Editor.Undoing.{
  undo_times, redo_times, run_edits, redo_times-undo_times, undo_times-run_edits,
}
use qwen_harness.TuiKit.Editor.FlatText.{text_before, text_behind, insert_text-buffer_text}

-- A platform that knows one combining mark, U+0301.
abbrev sample_unicode : Unicode
sample_unicode = record {
  is_combining_mark = λ c. c == 0x301;
  has_letter_or_number = λ g. true;
  to_lower_case = λ t. t;
}

-- `ab`, a line break and `cd`
abbrev two_lines : Text
two_lines = 97 ∷ 98 ∷ 10 ∷ 99 ∷ 100 ∷ []

abbrev fresh : EditorState
fresh = create_editor default_editor_config

abbrev typed_in : EditorState
typed_in = insert_text sample_unicode fresh two_lines

-- An accent belongs to the letter before it.
accent_extends :
    to_graphemes sample_unicode (101 ∷ 0x301 ∷ 120 ∷ []) ≡ (101 ∷ 0x301 ∷ []) ∷ (120 ∷ []) ∷ []
unfolding to_graphemes is_extend
accent_extends = refl

typed_in_text : buffer_text typed_in ≡ two_lines
unfolding insert_text create_editor buffer_text join split slice_to slice_from to_graphemes line_at
typed_in_text = refl

-- A backspace at the start of a line joins the two lines.
backspace_joins :
    buffer_text (
      backspace sample_unicode (record typed_in {
        buffer = record typed_in.buffer { cursor = record { row = 1; col = 0 } };
      }))
    ≡ 97 ∷ 98 ∷ 99 ∷ 100 ∷ []
unfolding backspace insert_text create_editor buffer_text join split slice_to grapheme_count line_at
    is_extend is_regional_indicator slice_from
backspace_joins = refl

-- A submission answers the text of the buffer.
submitted : (submit typed_in).1 ≡ some two_lines
unfolding submit insert_text create_editor buffer_text join split slice_to slice_from to_graphemes
    line_at
submitted = refl

abbrev session : List EditorAction
session = typed two_lines ∷ motion left true ∷ back_space ∷ undo_last ∷ []

run_actions-IsValid_example :
    IsValid sample_unicode
      (run_actions sample_unicode session (create_editor default_editor_config))
run_actions-IsValid_example = run_actions-IsValid sample_unicode default_editor_config session

abbrev begin : Cursor
begin = record { row = 0; col = 0 }

abbrev two_edits : List (Cursor × Cursor × Text)
two_edits = (begin, begin, two_lines) ∷ (begin, record { row = 1; col = 1 }, []) ∷ []

undo_times-run_edits_example :
    (undo_times 2 (run_edits sample_unicode two_edits fresh)).buffer ≡ fresh.buffer
unfolding create_editor
undo_times-run_edits_example = undo_times-run_edits sample_unicode two_edits fresh (omega arith)

redo_times-undo_times_example : (redo_times 1 (undo_times 1 typed_in)).buffer ≡ typed_in.buffer
unfolding insert_text create_editor
redo_times-undo_times_example = redo_times-undo_times 1 typed_in (omega arith) (omega arith)

abbrev browsing : EditorState
browsing = with_history typed_in ((97 ∷ []) ∷ (98 ∷ []) ∷ [])

insert_text-buffer_text_example :
    (text_before sample_unicode typed_in.buffer.lines typed_in.buffer.cursor
        ++ text_behind sample_unicode typed_in.buffer.lines typed_in.buffer.cursor
      ≡ buffer_text typed_in)
    × (buffer_text (insert_text sample_unicode typed_in (120 ∷ []))
        ≡ text_before sample_unicode typed_in.buffer.lines typed_in.buffer.cursor
          ++ ((120 ∷ [])
              ++ text_behind sample_unicode typed_in.buffer.lines typed_in.buffer.cursor))
unfolding insert_text create_editor split
insert_text-buffer_text_example =
    insert_text-buffer_text sample_unicode typed_in (120 ∷ []) refl (omega arith)
