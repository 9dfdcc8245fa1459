-- ===== src/Protocol/Errors.antt =====
-- packages/protocol/src/errors.ts: what an error says about a retry. The message, the category, the
-- origin and the request id are left out: nothing modelled here reads them.
use qwen_harness.Prelude.{ℕ, Bool, true, false, not, ◌&&◌, Option}

pub data SideEffectCertainty : Type 0 where
  no_effect not_started known_complete known_failed indeterminate : SideEffectCertainty

pub record HarnessError : Type 0 where
  pub retryable : Bool
  pub user_action_required : Bool
  pub side_effect_certainty : SideEffectCertainty
  pub visible_output_emitted : Bool
  pub retry_after_ms : Option ℕ

-- `certainty === 'none' || certainty === 'not-started'`
abbrev pub is_effect_free : SideEffectCertainty → Bool
is_effect_free no_effect = true
is_effect_free not_started = true
is_effect_free _ = false

unfoldable pub can_retry_transparently : HarnessError → Bool
can_retry_transparently error =
    error.retryable
    && (not error.user_action_required
        && (not error.visible_output_emitted && is_effect_free error.side_effect_certainty))
