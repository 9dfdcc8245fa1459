-- ===== src/Runtime/Budget/Cycles.antt =====
-- packages/runtime/src/budget.ts: the test for cycles of two calls against the calls themselves.
use qwen_harness.Prelude.{
  ℕ, zero, suc, ◌+◌, ◌-◌, ◌≤◌, true, false, not, ◌&&◌, List, [], ◌∷◌, ◌++◌, length, drop, take, ◌≡◌,
  refl, ap, ◌∙◌, ◌↔◌, arith, Text, text_eq, text_eq_refl, text_eq→eq, and-true, ltb, length-append,
}
use qwen_harness.Runtime.Budget.{all_same, follows, oscillates_at}

drop-append {ℓ} : {A : Type ℓ} (xs ys : List A) → drop (length xs) (xs ++ ys) ≡ ys
drop-append [] ys = refl
drop-append (x ∷ xs) ys = drop-append xs ys

-- A list is what comes before its last elements, and these.
last_n-split {ℓ} : {A : Type ℓ} (k : ℕ) (s : List A) → (before : List A) × (s ≡ before ++ drop k s)
last_n-split zero s = ([], refl)
last_n-split (suc k) [] = ([], refl)
last_n-split (suc k) (x ∷ s) = let (before, e) = last_n-split k s in (x ∷ before, ap (λ l. x ∷ l) e)

length-drop {ℓ} : {A : Type ℓ} (k : ℕ) (s : List A) → length (drop k s) ≡ length s - k
length-drop zero s = omega arith
length-drop (suc k) [] = omega arith
length-drop (suc k) (x ∷ s) = omega (arith, length-drop k s)

abbrev pub three_times : Text → Text → List Text
three_times a b = a ∷ b ∷ a ∷ b ∷ a ∷ b ∷ []

-- The window of the test, at two calls.
abbrev IsPair : List Text → Type 0
IsPair w = (a b : Text) × (w ≡ three_times a b) × (text_eq a b ≡ false)

window-IsPair :
    (w : List Text)
    → length w ≡ 6
    → not (all_same (take 2 w)) && follows 2 (take 2 w) 0 w ≡ true
    → IsPair w
unfolding all_same follows
window-IsPair (a ∷ b ∷ c ∷ d ∷ e ∷ f ∷ []) l h =
    let apart : text_eq a b ≡ false = ground arith in
    let p : text_eq c a ≡ true = ground arith in
    let q : text_eq d b ≡ true = ground arith in
    let r : text_eq e a ≡ true = ground arith in
    let t : text_eq f b ≡ true = ground arith in
    (a, b, rw (text_eq→eq c a p, text_eq→eq d b q, text_eq→eq e a r, text_eq→eq f b t) refl, apart)
window-IsPair w l h = ground arith

oscillates_at-pair :
    (before : List Text) (a b : Text)
    → text_eq a b ≡ false
    → oscillates_at 2 (before ++ three_times a b) ≡ true
unfolding oscillates_at all_same follows
oscillates_at-pair before a b h =
    let s = before ++ three_times a b in
    let long : length s ≡ length before + 6 = length-append before (three_times a b) in
    let start : length s - 6 ≡ length before = omega (arith, long) in
    let window : drop (length s - 6) s ≡ three_times a b = rw start (drop-append before _) in
    let enough : ltb (length s) 6 ≡ false = ground (arith, long) in
    rw (enough, window) (rw (h, text_eq_refl a, text_eq_refl b) refl)

-- The calls end in the same two different calls, three times in turn.
abbrev pub EndsInPairs : List Text → Type 0
EndsInPairs s =
    (before : List Text) × (a b : Text) × (s ≡ before ++ three_times a b) × (text_eq a b ≡ false)

oscillates_at-EndsInPairs : (s : List Text) → oscillates_at 2 s ≡ true → EndsInPairs s
unfolding oscillates_at
oscillates_at-EndsInPairs s h =
    let (enough, rest) = and-true (not (ltb (length s) 6)) _ h in
    let long : 6 ≤ length s = ground arith in
    let (before, e) = last_n-split (length s - 6) s in
    let size : length (drop (length s - 6) s) ≡ 6 =
      omega (arith, long, length-drop (length s - 6) s) in
    let (a, b, pair, apart) = window-IsPair (drop (length s - 6) s) size rest in
    (before, a, b, e ∙ ap (λ w. before ++ w) pair, apart)

-- The test at cycle length two holds exactly if the recent calls end in the same two different
-- calls, three times in turn.
oscillates_at_iff : (s : List Text) → (oscillates_at 2 s ≡ true) ↔ EndsInPairs s
oscillates_at_iff s = (
  oscillates_at-EndsInPairs s,
  λ (before, a, b, e, apart). rw e (oscillates_at-pair before a b apart),
)
