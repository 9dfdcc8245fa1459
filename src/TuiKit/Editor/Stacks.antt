-- ===== src/TuiKit/Editor/Stacks.antt =====
-- packages/tui-kit/src/editor.ts: the stacks of snapshots, arrays whose last element is the top.
use qwen_harness.Prelude.{
  suc, List, [], ◌∷◌, ◌++◌, none, some, ◌≡◌, refl, ap, ◌⊎◌, inl, inr, arith, All, length,
  length-append,
}
use qwen_harness.TuiKit.Editor.Edits.{pop}

module _ {ℓ} {A : Type ℓ} where
  pub pop-append_last : (xs : List A) (x : A) → pop (xs ++ x ∷ []) ≡ some (xs, x)
  pop-append_last [] x = refl
  pop-append_last (y ∷ []) x = refl
  pop-append_last (y ∷ z ∷ xs) x = rw (pop-append_last (z ∷ xs) x) refl

  pub split_last :
      (xs : List A) → (xs ≡ []) ⊎ ((rest : List A) × (last : A) × (xs ≡ rest ++ last ∷ []))
  split_last [] = inl refl
  split_last (x ∷ xs) = elim (split_last xs) [
    | inl e ↦ inr ([], x, ap (λ l. x ∷ l) e)
    | inr (rest, last, e) ↦ inr (x ∷ rest, last, ap (λ l. x ∷ l) e)
  ]

  pub pop-cases :
      (xs : List A)
      → (pop xs ≡ none)
        ⊎ ((rest : List A) × (last : A) × (pop xs ≡ some (rest, last)) × (xs ≡ rest ++ last ∷ []))
  pop-cases xs = elim (split_last xs) [
    | inl e ↦ inl (rw e refl)
    | inr (rest, last, e) ↦ inr (rest, last, rw e (pop-append_last rest last), e)
  ]

  pub length-append_last : (xs : List A) (x : A) → length (xs ++ x ∷ []) ≡ suc (length xs)
  length-append_last xs x = omega (arith, length-append xs (x ∷ []))

  pub All-append_last {κ} :
      (P : A → Type κ) (xs : List A) (x : A) → All P (xs ++ x ∷ []) → All P xs × P x
  All-append_last P [] x (h, _) = (_, h)
  All-append_last P (y ∷ xs) x (h, p) = let (q, r) = All-append_last P xs x p in ((h, q), r)
