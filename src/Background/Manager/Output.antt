-- ===== src/Background/Manager/Output.antt =====
-- packages/background/src/manager.ts: the preview of a task's output.
use qwen_harness.Prelude.{
  ℕ, zero, suc, ◌+◌, ◌-◌, ◌≤◌, ◌<◌, ◌≡◌, refl, sym, ap, ◌∙◌, inl, inr, Bool, true, ◌||◌, List, [],
  ◌∷◌, ◌++◌, Text, length, length-append, take, min, ltb, ltb_false→le, arith, if◌then◌else◌,
  Bool-cases,
}
use mathlib.Core.List.{append-nil, append_assoc}
use qwen_harness.Background.Table.{TaskRecord}
use qwen_harness.Background.State.{receive, output_preview_bytes}

minus_zero : (n : ℕ) → n - 0 ≡ n
minus_zero n = omega arith

module _ {ℓ} {A : Type ℓ} where
  length-take : (n : ℕ) (xs : List A) → length (take n xs) ≡ min n (length xs)
  length-take zero xs = omega arith
  length-take (suc n) [] = omega arith
  length-take (suc n) (x ∷ xs) = omega (arith, length-take n xs)

  take-append :
      (n : ℕ) (xs ys : List A) → take n (xs ++ ys) ≡ take n xs ++ take (n - length (take n xs)) ys
  take-append zero xs ys = refl
  take-append (suc n) [] ys = rw (minus_zero (suc n)) refl
  take-append (suc n) (x ∷ xs) ys =
      ap (λ zs. x ∷ zs) (take-append n xs ys ∙ ap (λ k. take n xs ++ take k ys) (omega arith))

abbrev pub receive_all : TaskRecord → List Text → TaskRecord
receive_all t [] = t
receive_all t (chunk ∷ chunks) = receive_all (receive t chunk) chunks

abbrev pub all_output : List Text → Text
all_output [] = []
all_output (chunk ∷ chunks) = chunk ++ all_output chunks

-- What the record keeps of the output so far.
pub record IsPreviewOf (out : Text) (t : TaskRecord) : Type 0 where
  pub counted : t.output_bytes ≡ length out
  pub kept : t.output_preview ≡ take output_preview_bytes out
  pub marked : output_preview_bytes < length out → t.output_truncated ≡ true

no_room : (n k : ℕ) → n ≤ k → n - k ≡ 0
no_room n k h = omega (arith, h)

receive-marked :
    (n out preview chunk : ℕ) (truncated : Bool)
    → preview ≡ min n out
    → (n < out → truncated ≡ true)
    → n < out + chunk
    → (if ltb preview n then truncated || ltb (n - preview) chunk else true) ≡ true
receive-marked n out preview chunk truncated e f h = ground (arith, e, f, h)

receive-kept :
    (out p chunk : Text) (n : ℕ)
    → p ≡ take n out
    → (if ltb (length p) n then p ++ take (n - length p) chunk else p) ≡ take n (out ++ chunk)
receive-kept out p chunk n h = elim (Bool-cases (ltb (length p) n)) [
  | inl e ↦ rw e (ap (λ q. q ++ take (n - length q) chunk) h ∙ sym (take-append n out chunk))
  | inr e ↦
      let full = ltb_false→le (length p) n e in
      let spent = no_room n (length p) full in
      rw e (h ∙ sym (take-append n out chunk ∙ rw (sym h, spent) (append-nil p)))
]

receive-IsPreviewOf :
    (out : Text) (t : TaskRecord) (chunk : Text)
    → IsPreviewOf out t
    → IsPreviewOf (out ++ chunk) (receive t chunk)
unfolding receive
receive-IsPreviewOf out t chunk p = record {
  counted = omega (arith, p.counted, length-append out chunk);
  kept = receive-kept out t.output_preview chunk output_preview_bytes p.kept;
  marked = λ h.
      receive-marked output_preview_bytes (length out) (length t.output_preview) (length chunk)
        t.output_truncated (ap length p.kept ∙ length-take output_preview_bytes out) p.marked
        (omega (arith, h, length-append out chunk));
}

-- If a record keeps the output so far, it still does after more chunks: the count is the length
-- of the whole, the preview is its first 65,536 units, and the mark is set if the whole is
-- longer.
pub receive_all-IsPreviewOf :
    (out : Text) (t : TaskRecord) (chunks : List Text)
    → IsPreviewOf out t
    → IsPreviewOf (out ++ all_output chunks) (receive_all t chunks)
receive_all-IsPreviewOf out t [] p = rw (append-nil out) p
receive_all-IsPreviewOf out t (chunk ∷ chunks) p =
    rw (sym (append_assoc out chunk (all_output chunks))) (
      receive_all-IsPreviewOf (out ++ chunk) (receive t chunk) chunks
        (receive-IsPreviewOf out t chunk p))
