-- ===== src/Prelude/Texts/Splits.antt =====
-- Splitting a text at a character and joining the fields again.
use Prim.Native.Nat.{ℕ, ◌≤◌}
use mathlib.Core.Path.{◌≡◌, ap, sym, ◌∙◌}
use mathlib.Core.Logic.{inl, inr}
use mathlib.Core.List.{List, [], ◌∷◌, ◌++◌, append_assoc, append-nil}
use native.Mathlib.Omega.{arith}
use qwen_harness.Prelude.Tests.{◌==◌, ==_iff, Bool-cases}
use qwen_harness.Prelude.Lists.{length}
use qwen_harness.Prelude.Texts.{Text, split_from, split, join}

one_le-split_from : (c : ℕ) (cur s : Text) → 1 ≤ length (split_from c cur s)
unfolding split_from
one_le-split_from c cur [] = omega arith
one_le-split_from c cur (d ∷ s) = elim (Bool-cases (d == c)) [
  | inl t ↦ rw t (omega arith)
  | inr f ↦ rw f (one_le-split_from c (cur ++ d ∷ []) s)
]

pub one_le-split : (s : Text) (c : ℕ) → 1 ≤ length (split s c)
unfolding split
one_le-split s c = one_le-split_from c [] s

pub join-cons :
    (sep x : Text) (xs : List Text) → 1 ≤ length xs → join sep (x ∷ xs) ≡ x ++ (sep ++ join sep xs)
unfolding join
join-cons sep x [] h = ground arith
join-cons sep x (y ∷ xs) h = append_assoc x sep _

join-split_from : (c : ℕ) (cur s : Text) → join (c ∷ []) (split_from c cur s) ≡ cur ++ s
unfolding split_from join
join-split_from c cur [] = sym (append-nil cur)
join-split_from c cur (d ∷ s) = elim (Bool-cases (d == c)) [
  | inl t ↦ rw t (
      join-cons (c ∷ []) cur (split_from c [] s) (one_le-split_from c [] s)
      ∙ ap (λ l. cur ++ c ∷ l) (join-split_from c [] s)
      ∙ ap (λ (e : ℕ). cur ++ e ∷ s) (sym ((==_iff d c).0 t)))
  | inr f ↦ rw f (join-split_from c (cur ++ d ∷ []) s ∙ append_assoc cur (d ∷ []) s)
]

-- The fields of a text joined by the separator are the text.
pub join-split : (s : Text) (c : ℕ) → join (c ∷ []) (split s c) ≡ s
unfolding split
join-split s c = join-split_from c [] s
