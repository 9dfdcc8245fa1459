-- ===== src/Policy/Paths/Within.antt =====
-- packages/policy/src/paths.ts: containment of paths and the expansion of `~`.
use qwen_harness.Prelude.{
  Bool, true, [], ◌∷◌, ◌++◌, ◌≡◌, ◌⊎◌, inl, inr, arith, Text, str, text_eq, text_eq_refl,
  text_eq→eq, starts_with, ends_with, starts_with_trans, starts_with_of_append, if◌then◌else◌,
  Bool-cases,
}

-- `pattern.slice(1)`
abbrev tail : Text → Text
tail [] = []
tail (c ∷ s) = s

unfoldable pub expand_home : Text → Text → Text
expand_home pattern home_dir =
    if text_eq pattern (str "~")
    then home_dir
    else if starts_with pattern (str "~/")
    then home_dir ++ tail pattern
    else pattern

-- The prefix that everything below `root` has.
unfoldable pub below : Text → Text
below root = if ends_with root b'/' then root else root ++ b'/' ∷ []

unfoldable pub is_within : Text → Text → Bool
is_within root path = if text_eq path root then true else starts_with path (below root)

below-starts_with :
    (root path : Text) → starts_with path (below root) ≡ true → starts_with path root ≡ true
unfolding below
below-starts_with root path h = elim (Bool-cases (ends_with root b'/')) [
  | inl e ↦ rw e at h
  | inr e ↦ starts_with_of_append path root (b'/' ∷ []) (rw e at h)
]

pub is_within_refl : (root : Text) → is_within root root ≡ true
unfolding is_within
is_within_refl root = rw (text_eq_refl root)

pub is_within-cases :
    (root path : Text)
    → is_within root path ≡ true
    → (path ≡ root) ⊎ (starts_with path (below root) ≡ true)
unfolding is_within
is_within-cases root path h = elim (Bool-cases (text_eq path root)) [
  | inl e ↦ inl (text_eq→eq path root e)
  | inr e ↦ inr (rw e at h)
]

pub is_within_of_below :
    (root path : Text) → starts_with path (below root) ≡ true → is_within root path ≡ true
unfolding is_within
is_within_of_below root path h = ground arith

-- A path below a path below the root is below the root.
pub is_within_trans :
    (a b c : Text) → is_within a b ≡ true → is_within b c ≡ true → is_within a c ≡ true
is_within_trans a b c h k = elim (is_within-cases a b h) [
  | inl e ↦ rw e at k
  | inr p ↦ elim (is_within-cases b c k) [
    | inl e ↦ rw e h
    | inr q ↦ is_within_of_below a c (starts_with_trans c b (below a) (below-starts_with b c q) p)
  ]
]
