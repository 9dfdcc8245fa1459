-- ===== src/TuiKit/Editor/FlatText.antt =====
-- packages/tui-kit/src/editor.ts: the buffer of lines against one flat text.
use qwen_harness.Prelude.{
  ℕ, zero, suc, ◌≤◌, ◌<◌, List, [], ◌∷◌, ◌++◌, none, Text, ◌≡◌, refl, ap, sym, ◌∙◌, arith, length,
  length-append, take, drop, split, join,
}
use mathlib.Core.List.{append_assoc}
use qwen_harness.Prelude.Texts.Splits.{join-split, join-cons, one_le-split}
use qwen_harness.TuiKit.Unicode.{Unicode}
use qwen_harness.TuiKit.Unicode.Clusters.{slice_to-append-slice_from}
use qwen_harness.TuiKit.Editor.State.{Cursor, EditorState, nl, line_at, buffer_text}
use qwen_harness.TuiKit.Editor.Buffer.{
  new_lines, last_lines, before_cursor, after_cursor, replace_range, commit,
}
use qwen_harness.TuiKit.Editor.Edits.{edit, insert_text, selected_range}

abbrev lines_text : List Text → Text
lines_text lines = join (nl ∷ []) lines

-- A line put in front of lines that hold one text behind another.
lines_text-cons :
    (x : Text) (zs ps : List Text) (q : Text)
    → 1 ≤ length zs
    → 1 ≤ length ps
    → lines_text zs ≡ lines_text ps ++ q
    → lines_text (x ∷ zs) ≡ lines_text (x ∷ ps) ++ q
lines_text-cons x zs ps q hz hp e =
    join-cons (nl ∷ []) x zs hz
    ∙ ap (λ t. x ++ nl ∷ t) e
    ∙ sym (append_assoc x (nl ∷ lines_text ps) q)
    ∙ ap (λ t. t ++ q) (sym (join-cons (nl ∷ []) x ps hp))

one_le-append_cons : (xs : List Text) (y : Text) (ys : List Text) → 1 ≤ length (xs ++ y ∷ ys)
one_le-append_cons xs y ys = omega (arith, length-append xs (y ∷ ys))

-- A line in two parts: the lines up to the first part, and those from the second on.
lines_text-cut :
    (xs : List Text) (a b : Text) (ys : List Text)
    → lines_text (xs ++ (a ++ b) ∷ ys) ≡ lines_text (xs ++ a ∷ []) ++ lines_text (b ∷ ys)
unfolding join
lines_text-cut [] a b [] = refl
lines_text-cut [] a b (y ∷ ys) =
    let h : 1 ≤ length (y ∷ ys) = omega arith in
    join-cons (nl ∷ []) (a ++ b) (y ∷ ys) h
    ∙ append_assoc a b (nl ∷ lines_text (y ∷ ys))
    ∙ ap (λ t. a ++ t) (sym (join-cons (nl ∷ []) b (y ∷ ys) h))
lines_text-cut (x ∷ xs) a b ys =
    lines_text-cons x (xs ++ (a ++ b) ∷ ys) (xs ++ a ∷ []) (lines_text (b ∷ ys))
      (one_le-append_cons xs (a ++ b) ys) (one_le-append_cons xs a []) (lines_text-cut xs a b ys)

-- The lines of the parts behind the first, with the text behind the range.
lines_text-last_lines :
    (first after : Text) (part : Text) (parts ys : List Text)
    → lines_text (first ∷ (last_lines after (part ∷ parts) ++ ys))
      ≡ lines_text (first ∷ part ∷ parts) ++ lines_text (after ∷ ys)
unfolding last_lines
lines_text-last_lines first after part [] ys = lines_text-cut (first ∷ []) part after ys
lines_text-last_lines first after part (next ∷ parts) ys =
    lines_text-cons first (part ∷ (last_lines after (next ∷ parts) ++ ys)) (part ∷ next ∷ parts)
      (lines_text (after ∷ ys)) (omega arith) (omega arith)
      (lines_text-last_lines part after next parts ys)

lines_text-new_lines :
    (xs : List Text) (before after : Text) (parts ys : List Text)
    → 1 ≤ length parts
    → lines_text (xs ++ (new_lines before after parts ++ ys))
      ≡ lines_text (xs ++ before ∷ []) ++ (lines_text parts ++ lines_text (after ∷ ys))
unfolding new_lines
lines_text-new_lines xs before after [] ys h = ground arith
lines_text-new_lines xs before after (only ∷ []) ys h =
    lines_text-cut xs (before ++ only) after ys
    ∙ ap (λ t. t ++ lines_text (after ∷ ys)) (lines_text-cut xs before only [])
    ∙ append_assoc (lines_text (xs ++ before ∷ [])) (lines_text (only ∷ [])) _
lines_text-new_lines xs before after (first ∷ next ∷ parts) ys h =
    lines_text-cut xs before first (last_lines after (next ∷ parts) ++ ys)
    ∙ ap (λ t. lines_text (xs ++ before ∷ []) ++ t)
        (lines_text-last_lines first after next parts ys)

take_line_drop :
    (lines : List Text) (n : ℕ)
    → n < length lines
    → take n lines ++ line_at lines n ∷ drop (suc n) lines ≡ lines
unfolding line_at
take_line_drop [] n h = ground arith
take_line_drop (x ∷ xs) zero h = refl
take_line_drop (x ∷ xs) (suc n) h = ap (λ l. x ∷ l) (take_line_drop xs n (omega (arith, h)))

module _ (unicode : Unicode) where
  -- The text before a range, that of the insertion and that behind the range.
  pub lines_text-replace_range :
      (lines : List Text) (start end' : Cursor) (text : Text)
      → lines_text (replace_range unicode lines start end' text).0
        ≡ lines_text (take start.row lines ++ before_cursor unicode lines start ∷ [])
          ++ (text ++ lines_text (after_cursor unicode lines end' ∷ drop (suc end'.row) lines))
  unfolding replace_range
  lines_text-replace_range lines start end' text =
      let before = before_cursor unicode lines start in
      let after = after_cursor unicode lines end' in
      lines_text-new_lines (take start.row lines) before after (split text nl)
        (drop (suc end'.row) lines) (one_le-split text nl)
      ∙ ap
          (λ t.
            lines_text (take start.row lines ++ before ∷ [])
            ++ (t ++ lines_text (after ∷ drop (suc end'.row) lines)))
          (join-split text nl)

  -- The text of the buffer before a cursor, and that behind it.
  abbrev pub text_before : List Text → Cursor → Text
  text_before lines c = lines_text (take c.row lines ++ before_cursor unicode lines c ∷ [])

  abbrev pub text_behind : List Text → Cursor → Text
  text_behind lines c = lines_text (after_cursor unicode lines c ∷ drop (suc c.row) lines)

  text_before-text_behind :
      (lines : List Text) (c : Cursor)
      → c.row < length lines
      → text_before lines c ++ text_behind lines c ≡ lines_text lines
  unfolding before_cursor after_cursor
  text_before-text_behind lines c h =
      let line = line_at lines c.row in
      sym (
        lines_text-cut (take c.row lines) (before_cursor unicode lines c)
          (after_cursor unicode lines c) (drop (suc c.row) lines))
      ∙ ap (λ t. lines_text (take c.row lines ++ t ∷ drop (suc c.row) lines))
          (slice_to-append-slice_from unicode line c.col)
      ∙ ap lines_text (take_line_drop lines c.row h)

  -- An insertion with nothing selected and the cursor on a line of the buffer puts the text between
  -- the text before the cursor and the text behind it, which are together the text of the buffer.
  pub insert_text-buffer_text :
      (s : EditorState) (text : Text)
      → s.buffer.anchor ≡ none
      → s.buffer.cursor.row < length s.buffer.lines
      → (text_before s.buffer.lines s.buffer.cursor ++ text_behind s.buffer.lines s.buffer.cursor
          ≡ buffer_text s)
        × (buffer_text (insert_text unicode s text)
            ≡ text_before s.buffer.lines s.buffer.cursor
              ++ (text ++ text_behind s.buffer.lines s.buffer.cursor))
  unfolding buffer_text insert_text selected_range edit commit
  insert_text-buffer_text s text none_selected h = rw none_selected (
    text_before-text_behind s.buffer.lines s.buffer.cursor h,
    lines_text-replace_range s.buffer.lines s.buffer.cursor s.buffer.cursor text,
  )
