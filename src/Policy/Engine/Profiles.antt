-- ===== src/Policy/Engine/Profiles.antt =====
-- packages/policy/src/engine.ts: the decisions that the profile stage takes by itself.
use qwen_harness.Prelude.{
  Bool, true, false, List, [], ◌∷◌, ◌≡◌, inl, inr, arith, Text, none, Bool-cases, is_empty, All,
}
use qwen_harness.Protocol.{PermissionProfile, is_user}
use qwen_harness.Policy.Action.{NormalizedAction, Platform, is_side_effect}
use qwen_harness.Policy.Paths.{sensitive_edit_reason}
use qwen_harness.Policy.Paths.Within.{is_within}
use qwen_harness.Policy.Action.Canonical.{check_canonical_action}
use qwen_harness.Policy.Effect.{Outcome, Effect}
use qwen_harness.Policy.Engine.Stages.{
  PolicyContext, outside_root, sensitive_path, file_edit_refusal, auto_accept_edits_refusal,
  profile_stage,
}
use qwen_harness.Policy.Engine.{evaluate, protected_matches, passes_through, is_profile_stage}
use qwen_harness.Policy.Engine.Results.{
  outcome_canonical, ceiling, IsCanonical, outcome_non_canonical, allow_inversion,
}
use qwen_harness.Policy.Engine.Sources.{ceiling-Keeps}

outside_root-All :
    (root : Text) (paths : List Text)
    → outside_root root paths ≡ none
    → All (λ p. is_within root p ≡ true) paths
unfolding outside_root
outside_root-All root [] h = tt
outside_root-All root (p ∷ ps) h = (ground arith, outside_root-All root ps (ground arith))

sensitive_path-All :
    (x : Bool) (paths : List Text)
    → sensitive_path x paths ≡ none
    → All (λ p. sensitive_edit_reason p x ≡ none) paths
unfolding sensitive_path
sensitive_path-All x [] h = tt
sensitive_path-All x (p ∷ ps) h = (ground arith, sensitive_path-All x ps (ground arith))

-- An ordinary file of the workspace: inside the root, and nothing that will be executed.
abbrev pub IsOrdinary : Text → Bool → List Text → Type 0
IsOrdinary root creates_executable paths =
    All (λ p. is_within root p ≡ true) paths
    × All (λ p. sensitive_edit_reason p creates_executable ≡ none) paths

file_edit-IsOrdinary :
    (root : Text) (x : Bool) (paths : List Text)
    → file_edit_refusal root x paths ≡ none
    → IsOrdinary root x paths
unfolding file_edit_refusal
file_edit-IsOrdinary root x paths h =
    (outside_root-All root paths (ground arith), sensitive_path-All x paths (ground arith))

-- What `auto-accept-edits` accepts on its own.
abbrev pub IsPlainEdit : Text → NormalizedAction → Type 0
IsPlainEdit root (NormalizedAction.file_write path x d) = IsOrdinary root x (path ∷ [])
IsPlainEdit root (NormalizedAction.file_edit path x d) = IsOrdinary root x (path ∷ [])
IsPlainEdit root (NormalizedAction.patch paths x d) = IsOrdinary root x paths
IsPlainEdit root _ = ⊥

auto_accept-IsPlainEdit :
    (action : NormalizedAction) (root : Text)
    → is_side_effect action ≡ true
    → auto_accept_edits_refusal action root ≡ none
    → IsPlainEdit root action
unfolding auto_accept_edits_refusal is_side_effect
auto_accept-IsPlainEdit (NormalizedAction.file_write path x d) root s h =
    file_edit-IsOrdinary root x (path ∷ []) h
auto_accept-IsPlainEdit (NormalizedAction.file_edit path x d) root s h =
    file_edit-IsOrdinary root x (path ∷ []) h
auto_accept-IsPlainEdit (NormalizedAction.patch paths x d) root s h =
    file_edit-IsOrdinary root x paths h
auto_accept-IsPlainEdit _ root s h = cc

profile_stage_edits :
    (action : NormalizedAction) (ctx : PolicyContext)
    → ctx.profile ≡ PermissionProfile.auto_accept_edits
    → is_user ctx.actor.kind ≡ false
    → is_side_effect action ≡ true
    → (profile_stage action ctx).0.effect ≡ Effect.allow
    → auto_accept_edits_refusal action ctx.workspace_root ≡ none
unfolding profile_stage
profile_stage_edits action ctx p u s h = ground arith

module _ (platform : Platform) (action : NormalizedAction) (ctx : PolicyContext) where
  -- A passthrough is a canonical action of the user that the profile stage allowed, with no protected
  -- path in it, and that no rule, grant, hook or managed rule had a say in.
  pub passthrough_inversion :
      (evaluate platform action ctx).outcome ≡ Outcome.passthrough
      → IsCanonical platform action ctx
        × (is_user ctx.actor.kind ≡ true)
        × (is_empty (protected_matches platform action ctx) ≡ true)
        × ((profile_stage action ctx).0.effect ≡ Effect.allow)
        × ((ceiling platform action ctx).verdict.source ≡ (profile_stage action ctx).0.source)
  unfolding passes_through
  passthrough_inversion h = elim (Bool-cases (is_empty (check_canonical_action platform action))) [
    | inr bad ↦ absurd (ground (arith, outcome_non_canonical platform action ctx bad))
    | inl good ↦
        let o = outcome_canonical platform action ctx good in
        let k = ceiling-Keeps platform action ctx (ground arith) (ground arith) in
        (good, ground arith, ground arith, ground arith, ground arith)
  ]

  -- Under `auto-accept-edits`, an action with a side effect that is not the user's and that the
  -- profile itself lets through is a file tool's: each of its paths is in the workspace and none of
  -- them is protected or will be executed.
  pub auto_accepted-IsPlainEdit :
      ctx.profile ≡ PermissionProfile.auto_accept_edits
      → is_user ctx.actor.kind ≡ false
      → is_side_effect action ≡ true
      → (evaluate platform action ctx).outcome ≡ Outcome.allow
      → is_profile_stage (evaluate platform action ctx).source.stage ≡ true
      → IsPlainEdit ctx.workspace_root action
        × (is_empty (protected_matches platform action ctx) ≡ true)
  auto_accepted-IsPlainEdit p u s h f =
      let (a, same) = allow_inversion platform action ctx h in
      let k = ceiling-Keeps platform action ctx (rw same at f) a in
      (
        auto_accept-IsPlainEdit action ctx.workspace_root s
            (profile_stage_edits action ctx p u s (ground arith)),
        k.1,
      )
