-- ===== src/Policy/Engine/Canonicity.antt =====
-- packages/policy/src/engine.ts: the guard on canonical actions, for paths that climb.
use qwen_harness.Prelude.{
  true, false, List, [], ◌∷◌, ◌++◌, ◌≡◌, refl, arith, Text, str, is_empty, is_none, includes, split,
}
use mathlib.Core.List.{Memᴰ}
use qwen_harness.Policy.Action.{NormalizedAction, Platform, action_paths}
use qwen_harness.Policy.Action.Canonical.{check_path, path_failures, check_canonical_action}
use qwen_harness.Policy.Effect.{Outcome}
use qwen_harness.Policy.Engine.Stages.{PolicyContext}
use qwen_harness.Policy.Engine.{evaluate}
use qwen_harness.Policy.Engine.Results.{outcome_non_canonical}

check_path-climbs :
    (platform : Platform) (path : Text)
    → includes (split path b'/') (str "..") ≡ true
    → is_none (check_path platform path) ≡ false
unfolding check_path
check_path-climbs platform path h = ground arith

path_failures_of_mem :
    (platform : Platform) (path : Text) (paths : List Text)
    → Memᴰ path paths
    → is_none (check_path platform path) ≡ false
    → is_empty (path_failures platform paths) ≡ false
unfolding path_failures
path_failures_of_mem platform path [] m h = elim m [ ]
path_failures_of_mem platform path (p ∷ paths) (Memᴰ.head e) h = ground arith
path_failures_of_mem platform path (p ∷ paths) (Memᴰ.tail m) h =
    ground (arith, path_failures_of_mem platform path paths m h)

is_empty-append_false {ℓ} :
    {A : Type ℓ} (xs ys : List A) → is_empty xs ≡ false → is_empty (xs ++ ys) ≡ false
is_empty-append_false [] ys h = cc
is_empty-append_false (x ∷ xs) ys h = refl

-- An action with a path that has a segment `..` is denied: in every profile, for every actor, and
-- whatever was granted.
pub climbing_denied :
    (platform : Platform) (action : NormalizedAction) (ctx : PolicyContext) (path : Text)
    → Memᴰ path (action_paths action)
    → includes (split path b'/') (str "..") ≡ true
    → (evaluate platform action ctx).outcome ≡ Outcome.deny
unfolding check_canonical_action
climbing_denied platform action ctx path m h = outcome_non_canonical platform action ctx (
    is_empty-append_false (path_failures platform (action_paths action)) _ (
      path_failures_of_mem platform path (action_paths action) m
        (check_path-climbs platform path h)))
