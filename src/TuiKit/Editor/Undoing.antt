-- ===== src/TuiKit/Editor/Undoing.antt =====
-- packages/tui-kit/src/editor.ts: edits taken back by undo, and undone edits made again by redo.
use qwen_harness.Prelude.{
  ℕ, zero, suc, ◌+◌, ◌-◌, ◌≤◌, ◌<◌, List, [], ◌∷◌, ◌++◌, some, Text, ◌≡◌, refl, ap, sym, ◌∙◌, arith,
  length, drop, leb, leb_false→lt, Bool-cases, inl, inr,
}
use mathlib.Core.Path.{subst}
use qwen_harness.TuiKit.Unicode.{Unicode}
use qwen_harness.TuiKit.Editor.State.{Cursor, Snapshot, EditorState}
use qwen_harness.TuiKit.Editor.Buffer.{bounded, commit}
use qwen_harness.TuiKit.Editor.Edits.{pop, edit, undo_to, undo, redo_to, redo}
use qwen_harness.TuiKit.Editor.Stacks.{pop-append_last, split_last, length-append_last}

-- The snapshots stand on top of the stack, the newest first.
abbrev OnTop : List Snapshot → List Snapshot → Type 0
OnTop [] stack = Unit
OnTop (b ∷ bs) stack = (rest : List Snapshot) × (stack ≡ rest ++ b ∷ []) × OnTop bs rest

-- The last of the snapshots, or the buffer if there are none.
abbrev oldest : Snapshot → List Snapshot → Snapshot
oldest b [] = b
oldest b (c ∷ bs) = oldest c bs

drop-append_le {ℓ} :
    {A : Type ℓ} (k : ℕ) (xs ys : List A) → k ≤ length xs → drop k (xs ++ ys) ≡ drop k xs ++ ys
drop-append_le zero xs ys h = refl
drop-append_le (suc k) [] ys h = ground arith
drop-append_le (suc k) (x ∷ xs) ys h = drop-append_le k xs ys (omega (arith, h))

OnTop-drop :
    (bs stack : List Snapshot) (k : ℕ)
    → OnTop bs stack
    → k + length bs ≤ length stack
    → OnTop bs (drop k stack)
OnTop-drop [] stack k t h = _
OnTop-drop (b ∷ bs) stack k (rest, e, t) h =
    let fits : k + length bs ≤ length rest =
      omega (arith, h, ap length e, length-append_last rest b) in
    (
      drop k rest,
      ap (drop k) e ∙ drop-append_le k rest (b ∷ []) (omega (arith, fits)),
      OnTop-drop bs rest k t fits,
    )

OnTop-length : (bs stack : List Snapshot) → OnTop bs stack → length bs ≤ length stack
OnTop-length [] stack t = omega arith
OnTop-length (b ∷ bs) stack (rest, e, t) =
    omega (arith, OnTop-length bs rest t, ap length e, length-append_last rest b)

-- One more snapshot pushed on the bounded stack.
OnTop-bounded :
    (b : Snapshot) (bs stack : List Snapshot) (m : ℕ)
    → OnTop bs stack
    → length bs < m
    → OnTop (b ∷ bs) (bounded (stack ++ b ∷ []) m)
OnTop-bounded b bs stack m t h = elim (Bool-cases (leb (length (stack ++ b ∷ [])) m)) [
  | inl fits ↦ rw fits (stack, refl, t)
  | inr long ↦
      let k = length (stack ++ b ∷ []) - m in
      let over = leb_false→lt _ m long in
      let low : k ≤ length stack = omega (arith, length-append_last stack b, h) in
      rw long (
        drop k stack,
        drop-append_le k stack (b ∷ []) low,
        OnTop-drop bs stack k t (omega (arith, length-append_last stack b, h, over)),
      )
]

undo_lem :
    (s : EditorState) (rest : List Snapshot) (b : Snapshot)
    → s.undo_stack ≡ rest ++ b ∷ []
    → undo s ≡ undo_to s (some (rest, b))
unfolding undo
undo_lem s rest b e = ap (undo_to s) (ap pop e ∙ pop-append_last rest b)

redo_lem :
    (s : EditorState) (rest : List Snapshot) (b : Snapshot)
    → s.redo_stack ≡ rest ++ b ∷ []
    → redo s ≡ redo_to s (some (rest, b))
unfolding redo
redo_lem s rest b e = ap (redo_to s) (ap pop e ∙ pop-append_last rest b)

abbrev pub undo_times : ℕ → EditorState → EditorState
undo_times zero s = s
undo_times (suc n) s = undo_times n (undo s)

abbrev pub redo_times : ℕ → EditorState → EditorState
redo_times zero s = s
redo_times (suc n) s = redo_times n (redo s)

undo_times-oldest :
    (bs : List Snapshot) (s : EditorState)
    → OnTop bs s.undo_stack
    → (undo_times (length bs) s).buffer ≡ oldest s.buffer bs
unfolding undo_to
undo_times-oldest [] s t = refl
undo_times-oldest (b ∷ bs) s (rest, e, t) =
    ap (λ x. (undo_times (length bs) x).buffer) (undo_lem s rest b e)
    ∙ undo_times-oldest bs (undo_to s (some (rest, b))) t

redo_times-oldest :
    (bs : List Snapshot) (s : EditorState)
    → OnTop bs s.redo_stack
    → (redo_times (length bs) s).buffer ≡ oldest s.buffer bs
unfolding redo_to
redo_times-oldest [] s t = refl
redo_times-oldest (b ∷ bs) s (rest, e, t) =
    ap (λ x. (redo_times (length bs) x).buffer) (redo_lem s rest b e)
    ∙ redo_times-oldest bs (redo_to s (some (rest, b))) t

-- On top of the other stack are some number of snapshots, down to a buffer.
abbrev LeadsBack : ℕ → Snapshot → EditorState → Type 0
LeadsBack n b s =
    (cs : List Snapshot) × (length cs ≡ n) × OnTop cs s.redo_stack × (oldest s.buffer cs ≡ b)

-- Some number of undos leaves as many snapshots there.
undo_times-LeadsBack :
    (n : ℕ) (bs : List Snapshot) (s : EditorState)
    → n ≤ length s.undo_stack
    → OnTop bs s.redo_stack
    → n + length bs ≤ s.config.max_undo
    → LeadsBack (n + length bs) (oldest s.buffer bs) (undo_times n s)
unfolding undo_to
undo_times-LeadsBack zero bs s h t m = (bs, omega arith, t, refl)
undo_times-LeadsBack (suc n) bs s h t m = elim (split_last s.undo_stack) [
  | inl e ↦ let none' : length s.undo_stack ≡ 0 = ap length e in ground (arith, none', h)
  | inr (rest, b, e) ↦
      let u = undo_to s (some (rest, b)) in
      let (cs, l, top, o) =
        undo_times-LeadsBack n (s.buffer ∷ bs) u
          (omega (arith, h, ap length e, length-append_last rest b))
          (OnTop-bounded s.buffer bs s.redo_stack s.config.max_undo t (omega (arith, m)))
          (omega (arith, m)) in
      subst (λ x. LeadsBack (suc n + length bs) (oldest s.buffer bs) (undo_times n x))
        (sym (undo_lem s rest b e)) (cs, omega (arith, l), top, o)
]

-- As many redos as undos give the buffer back, with its cursor and its selection, as long as there
-- were so many edits to undo and the bound of the stacks allows so many.
pub redo_times-undo_times :
    (n : ℕ) (s : EditorState)
    → n ≤ length s.undo_stack
    → n ≤ s.config.max_undo
    → (redo_times n (undo_times n s)).buffer ≡ s.buffer
redo_times-undo_times n s h m =
    let (cs, l, top, o) = undo_times-LeadsBack n [] s h _ (omega (arith, m)) in
    let e : length cs ≡ n = omega (arith, l) in
    rw e at (redo_times-oldest cs (undo_times n s) top) ∙ o

module _ (unicode : Unicode) where
  abbrev pub run_edits : List (Cursor × Cursor × Text) → EditorState → EditorState
  run_edits [] s = s
  run_edits ((start, end', text) ∷ edits) s = run_edits edits (edit unicode s start end' text)

  run_edits-OnTop :
      (edits : List (Cursor × Cursor × Text)) (bs : List Snapshot) (s : EditorState)
      → OnTop bs s.undo_stack
      → length edits + length bs ≤ s.config.max_undo
      → (cs : List Snapshot) × (length cs ≡ length edits + length bs)
        × OnTop cs (run_edits edits s).undo_stack
        × (oldest (run_edits edits s).buffer cs ≡ oldest s.buffer bs)
  unfolding edit commit
  run_edits-OnTop [] bs s t m = (bs, omega arith, t, refl)
  run_edits-OnTop ((start, end', text) ∷ edits) bs s t m =
      let (cs, l, top, o) =
        run_edits-OnTop edits (s.buffer ∷ bs) (edit unicode s start end' text)
          (OnTop-bounded s.buffer bs s.undo_stack s.config.max_undo t (omega (arith, m)))
          (omega (arith, m)) in
      (cs, omega (arith, l), top, o)

  -- As many undos as edits, of any ranges and texts, give the buffer back with its cursor and its
  -- selection, as long as the bound of the stack allows so many.
  pub undo_times-run_edits :
      (edits : List (Cursor × Cursor × Text)) (s : EditorState)
      → length edits ≤ s.config.max_undo
      → (undo_times (length edits) (run_edits edits s)).buffer ≡ s.buffer
  undo_times-run_edits edits s m =
      let (cs, l, top, o) = run_edits-OnTop edits [] s _ (omega (arith, m)) in
      let e : length cs ≡ length edits = omega (arith, l) in
      rw e at (undo_times-oldest cs (run_edits edits s) top) ∙ o
