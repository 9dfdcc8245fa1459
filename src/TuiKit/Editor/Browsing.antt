-- ===== src/TuiKit/Editor/Browsing.antt =====
-- packages/tui-kit/src/editor.ts: walks through the history and back to the draft.
use qwen_harness.Prelude.{
  ℕ, zero, suc, ◌+◌, ◌-◌, ◌≤◌, ◌<◌, false, List, [], ◌∷◌, Option, none, some, Text, ◌≡◌, refl, ap,
  sym, ◌∙◌, arith, length, is_empty, ltb, Bool-cases, inl, inr, ltb_false→le, ltb→lt,
}
use mathlib.Core.Path.{subst}
use qwen_harness.Prelude.Texts.Splits.{join-split}
use qwen_harness.TuiKit.Unicode.{Unicode}
use qwen_harness.TuiKit.Editor.State.{EditorState, nl, buffer_text, or_empty}
use qwen_harness.TuiKit.Editor.History.{
  load_buffer, prev_from, next_from, history_prev, history_next,
}

-- Browsing a history at an entry, with a draft put by.
abbrev BrowsesAt : List Text → Text → ℕ → EditorState → Type 0
BrowsesAt entries draft i s =
    (s.history ≡ entries) × (s.history_index ≡ some i) × (s.draft ≡ some draft)

is_empty-false : (xs : List Text) → 1 ≤ length xs → is_empty xs ≡ false
is_empty-false [] h = ground arith
is_empty-false (x ∷ xs) h = refl

module _ (unicode : Unicode) where
  buffer_text-load_buffer :
      (s : EditorState) (text : Text) (index : Option ℕ) (draft : Option Text)
      → buffer_text (load_buffer unicode s text index draft) ≡ text
  unfolding load_buffer buffer_text
  buffer_text-load_buffer s text index draft = join-split text nl

  history_prev_lem :
      (s : EditorState)
      → 1 ≤ length s.history
      → history_prev unicode s ≡ prev_from unicode s s.history_index
  unfolding history_prev
  history_prev_lem s h = rw (is_empty-false s.history h) refl

  -- The first step away from the draft, and the later ones.
  first-BrowsesAt :
      (s : EditorState)
      → s.history_index ≡ none
      → 1 ≤ length s.history
      → BrowsesAt s.history (buffer_text s) (length s.history - 1) (history_prev unicode s)
  unfolding prev_from load_buffer
  first-BrowsesAt s fresh h =
      subst (BrowsesAt s.history (buffer_text s) (length s.history - 1))
        (sym (history_prev_lem s h ∙ ap (prev_from unicode s) fresh)) (refl, refl, refl)

  prev-BrowsesAt :
      (entries : List Text) (draft : Text) (i : ℕ) (s : EditorState)
      → 1 ≤ length entries
      → BrowsesAt entries draft i s
      → BrowsesAt entries draft (i - 1) (history_prev unicode s)
  unfolding prev_from load_buffer
  prev-BrowsesAt entries draft i s h (same, at, kept) =
      subst (BrowsesAt entries draft (i - 1))
        (sym (history_prev_lem s (omega (arith, h, ap length same)) ∙ ap (prev_from unicode s) at))
        (same, refl, kept)

  next-BrowsesAt :
      (entries : List Text) (draft : Text) (i : ℕ) (s : EditorState)
      → suc i < length entries
      → BrowsesAt entries draft i s
      → BrowsesAt entries draft (suc i) (history_next unicode s)
  unfolding history_next next_from load_buffer
  next-BrowsesAt entries draft i s h (same, at, kept) =
      subst (BrowsesAt entries draft (suc i)) (sym (ap (next_from unicode s) at))
        (elim (Bool-cases (ltb (length s.history - 1) (suc i))) [
          | inl past ↦ ground (arith, ltb→lt _ _ past, ap length same, h)
          | inr inside ↦ rw inside (same, refl, kept)
        ])

  next_text :
      (entries : List Text) (draft : Text) (i : ℕ) (s : EditorState)
      → length entries ≤ suc i
      → 1 ≤ length entries
      → BrowsesAt entries draft i s
      → buffer_text (history_next unicode s) ≡ draft
  unfolding history_next next_from
  next_text entries draft i s h n (same, at, kept) =
      ap (λ x. buffer_text (next_from unicode s x)) at
      ∙ elim (Bool-cases (ltb (length s.history - 1) (suc i))) [
        | inl past ↦
            rw past (buffer_text-load_buffer s (or_empty s.draft) none none ∙ ap or_empty kept)
        | inr inside ↦ ground (arith, ltb_false→le _ _ inside, ap length same, h, n)
      ]

  abbrev pub prev_times : ℕ → EditorState → EditorState
  prev_times zero s = s
  prev_times (suc n) s = prev_times n (history_prev unicode s)

  abbrev pub next_times : ℕ → EditorState → EditorState
  next_times zero s = s
  next_times (suc n) s = next_times n (history_next unicode s)

  prev_times-BrowsesAt :
      (n : ℕ) (entries : List Text) (draft : Text) (i : ℕ) (s : EditorState)
      → n ≤ i
      → 1 ≤ length entries
      → BrowsesAt entries draft i s
      → BrowsesAt entries draft (i - n) (prev_times n s)
  prev_times-BrowsesAt zero entries draft i s h l b =
      let e : i ≡ i - 0 = omega arith in subst (λ k. BrowsesAt entries draft k s) e b
  prev_times-BrowsesAt (suc n) entries draft i s h l b =
      let e : i - 1 - n ≡ i - suc n = omega arith in
      rw e at (
        prev_times-BrowsesAt n entries draft (i - 1) (history_prev unicode s) (omega (arith, h)) l
          (prev-BrowsesAt entries draft i s l b))

  next_times_text :
      (n : ℕ) (entries : List Text) (draft : Text) (i : ℕ) (s : EditorState)
      → i + suc n ≡ length entries
      → BrowsesAt entries draft i s
      → buffer_text (next_times (suc n) s) ≡ draft
  next_times_text zero entries draft i s h b =
      next_text entries draft i s (omega (arith, h)) (omega (arith, h)) b
  next_times_text (suc n) entries draft i s h b =
      next_times_text n entries draft (suc i) (history_next unicode s) (omega (arith, h))
        (next-BrowsesAt entries draft i s (omega (arith, h)) b)

  -- As many steps forward as back in the history give the text of the draft, for any number of steps
  -- up to the number of entries.
  pub next_times-prev_times :
      (n : ℕ) (s : EditorState)
      → s.history_index ≡ none
      → n ≤ length s.history
      → buffer_text (next_times n (prev_times n s)) ≡ buffer_text s
  next_times-prev_times zero s fresh h = refl
  next_times-prev_times (suc n) s fresh h =
      let b = first-BrowsesAt s fresh (omega (arith, h)) in
      next_times_text n s.history (buffer_text s) (length s.history - 1 - n)
        (prev_times n (history_prev unicode s)) (omega (arith, h))
        (prev_times-BrowsesAt n s.history (buffer_text s) (length s.history - 1)
          (history_prev unicode s) (omega (arith, h)) (omega (arith, h)) b)
