-- ===== src/Policy/Paths/Glob/Lines.antt =====
-- packages/policy/src/paths.ts: text globs and line terminators.
use qwen_harness.Prelude.{
  ℕ, zero, suc, Bool, true, false, not, ◌&&◌, List, [], ◌∷◌, ◌++◌, reverse, ◌≡◌, refl, arith, Text,
  ◌==◌, ==_iff, all, and-true,
}
use mathlib.Core.List.{reverse-cons}
use qwen_harness.Policy.Paths.Glob.{
  text, Part, lit, segment, segment_char, dot_star, dot, dirs, subtree, compile_from,
  glob_to_reg_exp, is_line_terminator, run_star, run_one, run, test, match_text_glob, at_char,
}

abbrev pub one_line : Text → Bool
one_line s = all (λ c. not (is_line_terminator c)) s

-- The parts that a text glob without line terminators compiles to.
abbrev is_line_part : Part → Bool
is_line_part (lit c) = not (is_line_terminator c)
is_line_part dot_star = true
is_line_part dot = true
is_line_part _ = false

at_char-is_line_part :
    (source : List Part) (c : ℕ) (rest : Text)
    → is_line_terminator c ≡ false
    → all is_line_part source ≡ true
    → all is_line_part (at_char text source c rest).0 ≡ true
unfolding at_char
at_char-is_line_part source c rest h k = ground arith

all-append {ℓ} :
    {A : Type ℓ} (p : A → Bool) (xs ys : List A) → all p (xs ++ ys) ≡ all p xs && all p ys
all-append p [] ys = refl
all-append p (x ∷ xs) ys = ground (arith, all-append p xs ys)

all-reverse {ℓ} :
    {A : Type ℓ} (p : A → Bool) (xs : List A) → all p xs ≡ true → all p (reverse xs) ≡ true
all-reverse p [] h = refl
all-reverse p (x ∷ xs) h =
    rw reverse-cons (ground (arith, all-append p (reverse xs) (x ∷ []), all-reverse p xs))

module _ (rest : Text → Bool) (keeps : (s : Text) → rest s ≡ true → one_line s ≡ true) where
  run_star-one_line :
      (s : Text) → run_star rest (λ d. not (is_line_terminator d)) s ≡ true → one_line s ≡ true
  unfolding run_star
  run_star-one_line [] h = refl
  run_star-one_line (c ∷ s) h = ground (arith, keeps (c ∷ s), run_star-one_line s)

  run-one_line :
      (p : Part) (s : Text) → is_line_part p ≡ true → run p rest s ≡ true → one_line s ≡ true
  unfolding run run_one
  run-one_line (lit c) [] h k = refl
  run-one_line (lit c) (d ∷ s) h k =
      let (e, r) = and-true (d == c) (rest s) k in rw ((==_iff d c).0 e) (rw h (keeps s r))
  run-one_line dot_star s h k = run_star-one_line s k
  run-one_line dot [] h k = refl
  run-one_line dot (d ∷ s) h k = ground (arith, keeps s)
  run-one_line segment s h k = cc
  run-one_line segment_char s h k = cc
  run-one_line dirs s h k = cc
  run-one_line subtree s h k = cc

test-one_line :
    (parts : List Part) (s : Text)
    → all is_line_part parts ≡ true
    → test parts s ≡ true
    → one_line s ≡ true
unfolding test
test-one_line [] [] h k = refl
test-one_line [] (c ∷ s) h k = cc
test-one_line (p ∷ parts) s h k =
    let (a, b) = and-true (is_line_part p) (all is_line_part parts) h in
    run-one_line (test parts) (λ t. test-one_line parts t b) p s a k

compile_from-is_line_part :
    (source : List Part) (skip : ℕ) (pattern : Text)
    → all is_line_part source ≡ true
    → one_line pattern ≡ true
    → all is_line_part (compile_from text source skip pattern) ≡ true
unfolding compile_from
compile_from-is_line_part source skip [] h k = all-reverse is_line_part source h
compile_from-is_line_part source (suc skip) (c ∷ pattern) h k =
    compile_from-is_line_part source skip pattern h
      (and-true (not (is_line_terminator c)) (one_line pattern) k).1
compile_from-is_line_part source zero (c ∷ pattern) h k =
    let (a, b) = and-true (not (is_line_terminator c)) (one_line pattern) k in
    compile_from-is_line_part (at_char text source c pattern).0 (at_char text source c pattern).1
      pattern (at_char-is_line_part source c pattern (ground arith) h) b

-- A text that a text glob matches is on one line, if the glob is written on one line.
pub match_text_glob-one_line :
    (pattern value : Text)
    → one_line pattern ≡ true
    → match_text_glob pattern value ≡ true
    → one_line value ≡ true
unfolding match_text_glob
match_text_glob-one_line pattern value h k =
    test-one_line (glob_to_reg_exp pattern text) value
      (unfold glob_to_reg_exp in compile_from-is_line_part [] 0 pattern refl h) k
