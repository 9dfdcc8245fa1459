-- ===== src/TuiKit/Unicode/Clusters.antt =====
-- packages/tui-kit/src/unicode.ts: the clusters of a text put together again, and of a longer text.
use qwen_harness.Prelude.{
  ℕ, zero, suc, ◌≤◌, true, false, List, [], ◌∷◌, ◌++◌, Text, ◌≡◌, refl, ap, sym, ◌∙◌, arith, length,
  is_empty, length-append, Bool-cases, inl, inr, take, drop,
}
use mathlib.Core.List.{append_assoc, append-nil}
use qwen_harness.TuiKit.Unicode.{
  Unicode, Cluster, no_cluster, take_char, clusters_from, to_graphemes, grapheme_count, concat,
  slice_to, slice_from,
}

concat-append : (xs ys : List Text) → concat (xs ++ ys) ≡ concat xs ++ concat ys
unfolding concat
concat-append [] ys = refl
concat-append (x ∷ xs) ys = rw (concat-append xs ys) (sym (append_assoc x (concat xs) (concat ys)))

take-append-drop {ℓ} : {A : Type ℓ} (n : ℕ) (xs : List A) → take n xs ++ drop n xs ≡ xs
take-append-drop zero xs = refl
take-append-drop (suc n) [] = refl
take-append-drop (suc n) (x ∷ xs) = ap (λ l. x ∷ l) (take-append-drop n xs)

is_empty→eq : (t : Text) → is_empty t ≡ true → t ≡ []
is_empty→eq [] h = refl
is_empty→eq (c ∷ t) h = cc

is_empty-append_last : (t : Text) (c : ℕ) → is_empty (t ++ c ∷ []) ≡ false
is_empty-append_last [] c = refl
is_empty-append_last (d ∷ t) c = refl

-- What the loop knows of a step: the clusters pushed and the one being read hold the characters so
-- far, and the latter is not empty.
abbrev IsTaken : Cluster → ℕ → List Text × Cluster → Type 0
IsTaken c cp r = (concat r.0 ++ r.1.current ≡ c.current ++ cp ∷ []) × (is_empty r.1.current ≡ false)

module _ (unicode : Unicode) where
  take_char-IsTaken : (c : Cluster) (cp : ℕ) → IsTaken c cp (take_char unicode c cp)
  unfolding take_char concat
  take_char-IsTaken c cp =
      ground (arith, is_empty→eq c.current, is_empty-append_last c.current cp, append-nil c.current)

  concat-clusters_from :
      (c : Cluster) (text : Text) → concat (clusters_from unicode c text) ≡ c.current ++ text
  unfolding clusters_from concat
  concat-clusters_from c [] = ground (arith, is_empty→eq c.current)
  concat-clusters_from c (cp ∷ text) =
      let (pushed, next) = take_char unicode c cp in
      concat-append pushed _
      ∙ ap (λ l. concat pushed ++ l) (concat-clusters_from next text)
      ∙ sym (append_assoc (concat pushed) next.current text)
      ∙ ap (λ l. l ++ text) (take_char-IsTaken c cp).0
      ∙ append_assoc c.current (cp ∷ []) text

  -- The clusters of a text are the text.
  pub concat-to_graphemes : (text : Text) → concat (to_graphemes unicode text) ≡ text
  unfolding to_graphemes
  concat-to_graphemes text = concat-clusters_from no_cluster text

  -- A text cut between two of its clusters is put together again.
  pub slice_to-append-slice_from :
      (text : Text) (n : ℕ)
      → slice_to (to_graphemes unicode text) n ++ slice_from (to_graphemes unicode text) n ≡ text
  unfolding slice_to slice_from
  slice_to-append-slice_from text n =
      let gs = to_graphemes unicode text in
      sym (concat-append (take n gs) (drop n gs))
      ∙ ap concat (take-append-drop n gs)
      ∙ concat-to_graphemes text

  one_le-clusters_from :
      (c : Cluster) (text : Text)
      → is_empty c.current ≡ false
      → 1 ≤ length (clusters_from unicode c text)
  unfolding clusters_from
  one_le-clusters_from c [] h = rw h (omega arith)
  one_le-clusters_from c (cp ∷ text) h =
      let (pushed, next) = take_char unicode c cp in
      omega (
        arith,
        length-append pushed (clusters_from unicode next text),
        one_le-clusters_from next text (take_char-IsTaken c cp).1,
      )

  length-clusters_from-append :
      (c : Cluster) (a b : Text)
      → length (clusters_from unicode c a) ≤ length (clusters_from unicode c (a ++ b))
  unfolding clusters_from
  length-clusters_from-append c [] b = elim (Bool-cases (is_empty c.current)) [
    | inl e ↦ rw e (omega arith)
    | inr e ↦ rw e (one_le-clusters_from c b e)
  ]
  length-clusters_from-append c (cp ∷ a) b =
      let (pushed, next) = take_char unicode c cp in
      omega (
        arith,
        length-append pushed (clusters_from unicode next a),
        length-append pushed (clusters_from unicode next (a ++ b)),
        length-clusters_from-append next a b,
      )

  -- A longer text has no fewer clusters.
  pub grapheme_count-append :
      (a b : Text) → grapheme_count unicode a ≤ grapheme_count unicode (a ++ b)
  unfolding grapheme_count to_graphemes
  grapheme_count-append a b = length-clusters_from-append no_cluster a b
