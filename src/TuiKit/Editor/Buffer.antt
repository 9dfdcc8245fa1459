-- ===== src/TuiKit/Editor/Buffer.antt =====
-- packages/tui-kit/src/editor.ts: the replacement of a range of the buffer, and its commit.
use qwen_harness.Prelude.{
  ℕ, suc, ◌+◌, ◌-◌, Bool, ◌&&◌, ◌||◌, List, [], ◌∷◌, ◌++◌, Option, none, Text, ◌==◌, leb, ltb,
  split, if◌then◌else◌, length, take, drop,
}
use qwen_harness.TuiKit.Unicode.{Unicode, to_graphemes, grapheme_count, slice_to, slice_from}
use qwen_harness.TuiKit.Editor.State.{Cursor, EditorState, line_at, nl}

-- Whether the first cursor is not behind the second.
unfoldable pub precedes : Cursor → Cursor → Bool
precedes a b = ltb a.row b.row || (a.row == b.row && leb a.col b.col)

unfoldable pub ordered : Cursor → Cursor → Cursor × Cursor
unfolding precedes
ordered a b = if precedes a b then (a, b) else (b, a)

-- The parts behind the first, with the text behind the range put on the last.
unfoldable pub last_lines : Text → List Text → List Text
last_lines after [] = []
last_lines after (last ∷ []) = (last ++ after) ∷ []
last_lines after (part ∷ next ∷ parts) = part ∷ last_lines after (next ∷ parts)

-- The lines that take the place of the range.
unfoldable pub new_lines : Text → Text → List Text → List Text
unfolding last_lines
new_lines before after [] = (before ++ after) ∷ []
new_lines before after (only ∷ []) = ((before ++ only) ++ after) ∷ []
new_lines before after (first ∷ next ∷ parts) = (before ++ first) ∷ last_lines after (next ∷ parts)

-- `parts[parts.length - 1] ?? ''`
unfoldable pub last_part : List Text → Text
last_part [] = []
last_part (part ∷ []) = part
last_part (part ∷ next ∷ parts) = last_part (next ∷ parts)

module _ (unicode : Unicode) where
  unfoldable pub end_cursor : ℕ → Text → List Text → Cursor
  unfolding last_part
  end_cursor row before [] = record { row = row; col = grapheme_count unicode before }
  end_cursor row before (only ∷ []) = record {
    row = row;
    col = grapheme_count unicode (before ++ only);
  }
  end_cursor row before (first ∷ next ∷ parts) = record {
    row = row + length (next ∷ parts);
    col = grapheme_count unicode (last_part (next ∷ parts));
  }

  -- The text of a line before and behind a cursor in it.
  unfoldable pub before_cursor : List Text → Cursor → Text
  before_cursor lines c = slice_to (to_graphemes unicode (line_at lines c.row)) c.col

  unfoldable pub after_cursor : List Text → Cursor → Text
  after_cursor lines c = slice_from (to_graphemes unicode (line_at lines c.row)) c.col

  unfoldable pub replace_range : List Text → Cursor → Cursor → Text → List Text × Cursor
  unfolding new_lines end_cursor before_cursor after_cursor
  replace_range lines start end' insert =
      let before = before_cursor lines start in
      let after = after_cursor lines end' in
      let parts = split insert nl in
      (
        take start.row lines ++ (new_lines before after parts ++ drop (suc end'.row) lines),
        end_cursor start.row before parts,
      )

-- The last `max` items.
abbrev pub bounded {ℓ} : {A : Type ℓ} → List A → ℕ → List A
bounded items max = if leb (length items) max then items else drop (length items - max) items

unfoldable pub commit : EditorState → List Text × Cursor → Option Cursor → EditorState
commit s (lines, cursor) anchor = record s {
  buffer = record { lines = lines; cursor = cursor; anchor = anchor };
  undo_stack = bounded (s.undo_stack ++ s.buffer ∷ []) s.config.max_undo;
  redo_stack = [];
  history_index = none;
  draft = none;
}
