-- ===== src/TuiKit/Editor/Validity.antt =====
-- packages/tui-kit/src/editor.ts: the states in which every cursor lies in its buffer.
pub mod Edits
pub mod Motions
pub mod Actions
use qwen_harness.Prelude.{
  ℕ, zero, suc, ◌+◌, ◌-◌, ◌≤◌, ◌<◌, Bool, true, false, List, [], ◌∷◌, ◌++◌, Option, none, some,
  Text, ◌≡◌, refl, ap, sym, ◌∙◌, arith, All, length, length-append, take, drop, split, leb,
  if◌then◌else◌, Bool-cases, inl, inr, leb→le,
}
use qwen_harness.TuiKit.Unicode.{Unicode, grapheme_count}
use qwen_harness.TuiKit.Unicode.Clusters.{grapheme_count-append}
use qwen_harness.TuiKit.Editor.State.{Cursor, Snapshot, EditorState, nl, line_at}
use qwen_harness.TuiKit.Editor.Buffer.{
  new_lines, last_lines, last_part, end_cursor, replace_range, before_cursor, after_cursor, bounded,
  commit,
}

module _ (unicode : Unicode) where
  abbrev pub InLines : List Text → Cursor → Type 0
  InLines lines c = (c.row < length lines) × c.col ≤ grapheme_count unicode (line_at lines c.row)

  abbrev pub AnchorInLines : List Text → Option Cursor → Type 0
  AnchorInLines lines none = Unit
  AnchorInLines lines (some c) = InLines lines c

  abbrev pub IsSound : Snapshot → Type 0
  IsSound b = InLines b.lines b.cursor × AnchorInLines b.lines b.anchor

  -- Every snapshot is sound, and the stacks keep their bound.
  pub record IsValid (s : EditorState) : Type 0 where
    pub sound : IsSound s.buffer
    pub undo_sound : All IsSound s.undo_stack
    pub redo_sound : All IsSound s.redo_stack
    pub undo_bound : length s.undo_stack ≤ s.config.max_undo
    pub redo_bound : length s.redo_stack ≤ s.config.max_undo

module _ {ℓ} {A : Type ℓ} where
  length-take : (n : ℕ) (xs : List A) → n ≤ length xs → length (take n xs) ≡ n
  length-take zero xs h = refl
  length-take (suc n) [] h = omega (arith, h)
  length-take (suc n) (x ∷ xs) h = ap suc (length-take n xs (omega (arith, h)))

  pub length-drop : (n : ℕ) (xs : List A) → length (drop n xs) ≡ length xs - n
  length-drop zero xs = omega arith
  length-drop (suc n) [] = omega arith
  length-drop (suc n) (x ∷ xs) = omega (arith, length-drop n xs)

  pub length-bounded : (xs : List A) (m : ℕ) → length (bounded xs m) ≤ m
  length-bounded xs m = elim (Bool-cases (leb (length xs) m)) [
    | inl t ↦ rw t (leb→le _ _ t)
    | inr f ↦ rw f (omega (arith, length-drop (length xs - m) xs))
  ]

  module _ {κ} (P : A → Type κ) where
    pub All-append : (xs ys : List A) → All P xs → All P ys → All P (xs ++ ys)
    All-append [] ys p q = q
    All-append (x ∷ xs) ys (h, p) q = (h, All-append xs ys p q)

    All-drop : (n : ℕ) (xs : List A) → All P xs → All P (drop n xs)
    All-drop zero xs p = p
    All-drop (suc n) [] p = p
    All-drop (suc n) (x ∷ xs) (h, p) = All-drop n xs p

    pub All-bounded : (xs : List A) (m : ℕ) → All P xs → All P (bounded xs m)
    All-bounded xs m p = elim (Bool-cases (leb (length xs) m)) [
      | inl t ↦ rw t p
      | inr f ↦ rw f (All-drop (length xs - m) xs p)
    ]

line_at-append : (xs ys : List Text) (i : ℕ) → line_at (xs ++ ys) (length xs + i) ≡ line_at ys i
unfolding line_at
line_at-append [] ys i = let e : 0 + i ≡ i = omega arith in ap (line_at ys) e
line_at-append (x ∷ xs) ys i =
    let e : suc (length xs) + i ≡ suc (length xs + i) = omega arith in rw e (line_at-append xs ys i)

line_at-append_head :
    (xs : List Text) (y : Text) (ys : List Text) → line_at (xs ++ y ∷ ys) (length xs) ≡ y
unfolding line_at
line_at-append_head [] y ys = refl
line_at-append_head (x ∷ xs) y ys = line_at-append_head xs y ys

line_at-suc : (x : Text) (xs : List Text) (i : ℕ) → line_at (x ∷ xs) (suc i) ≡ line_at xs i
unfolding line_at
line_at-suc x xs i = refl

line_at-last_lines :
    (after part : Text) (parts rest : List Text)
    → line_at (last_lines after (part ∷ parts) ++ rest) (length parts)
      ≡ last_part (part ∷ parts) ++ after
unfolding line_at last_lines last_part
line_at-last_lines after part [] rest = refl
line_at-last_lines after part (next ∷ parts) rest = line_at-last_lines after next parts rest

length-last_lines :
    (after part : Text) (parts : List Text)
    → length (last_lines after (part ∷ parts)) ≡ suc (length parts)
unfolding last_lines
length-last_lines after part [] = refl
length-last_lines after part (next ∷ parts) = ap suc (length-last_lines after next parts)

module _ (unicode : Unicode) where
  -- The cursor behind the inserted parts, in lines that start with `kept`.
  end_cursor-InLines :
      (kept rest : List Text) (before after : Text) (parts : List Text)
      → InLines unicode
          (kept ++ (new_lines before after parts ++ rest))
          (end_cursor unicode (length kept) before parts)
  unfolding new_lines end_cursor
  end_cursor-InLines kept rest before after [] = (
    omega (arith, length-append kept ((before ++ after) ∷ rest)),
    rw (line_at-append_head kept (before ++ after) rest)
        (grapheme_count-append unicode before after),
  )
  end_cursor-InLines kept rest before after (only ∷ []) = (
    omega (arith, length-append kept (((before ++ only) ++ after) ∷ rest)),
    rw (line_at-append_head kept ((before ++ only) ++ after) rest)
        (grapheme_count-append unicode (before ++ only) after),
  )
  end_cursor-InLines kept rest before after (first ∷ next ∷ parts) =
      let more = last_lines after (next ∷ parts) in
      (
        omega (
          arith,
          length-append kept ((before ++ first) ∷ (more ++ rest)),
          length-append more rest,
          length-last_lines after next parts,
        ),
        rw
            (
              line_at-append kept ((before ++ first) ∷ (more ++ rest)) (suc (length parts)),
              line_at-suc (before ++ first) (more ++ rest) (length parts),
              line_at-last_lines after next parts rest,
            )
            (grapheme_count-append unicode (last_part (next ∷ parts)) after),
      )

  pub replace_range-InLines :
      (lines : List Text) (start end' : Cursor) (text : Text)
      → start.row < length lines
      → InLines unicode
          (replace_range unicode lines start end' text).0
          (replace_range unicode lines start end' text).1
  unfolding replace_range
  replace_range-InLines lines start end' text h =
      rw (length-take start.row lines (omega (arith, h))) at (
        end_cursor-InLines (take start.row lines) (drop (suc end'.row) lines)
          (before_cursor unicode lines start) (after_cursor unicode lines end') (split text nl))

  pub commit-IsValid :
      (s : EditorState) (lines : List Text) (cursor : Cursor)
      → IsValid unicode s
      → InLines unicode lines cursor
      → IsValid unicode (commit s (lines, cursor) none)
  unfolding commit
  commit-IsValid s lines cursor v h =
      let all =
        All-append (IsSound unicode) s.undo_stack (s.buffer ∷ []) v.undo_sound (v.sound, _) in
      record {
        sound = (h, _);
        undo_sound =
            All-bounded (IsSound unicode) (s.undo_stack ++ s.buffer ∷ []) s.config.max_undo all;
        redo_sound = _;
        undo_bound = length-bounded (s.undo_stack ++ s.buffer ∷ []) s.config.max_undo;
        redo_bound = omega arith;
      }
