-- ===== src/Provider/Retry.antt =====
-- packages/provider-core/src/retry.ts: when a failed attempt is retried, and after how long. The
-- float in [0, 1) that `rng` returns is a fraction of two natural numbers, below one; what the
-- source throws on any other float is left out with it.
pub mod Bounds
pub mod Loop
use qwen_harness.Prelude.{
  ℕ, ◌+◌, ◌-◌, ◌*◌, ◌/◌, ◌^◌, ◌<◌, min, Bool, true, false, not, Option, none, some, if◌then◌else◌,
  leb, ltb,
}
use qwen_harness.Protocol.Errors.{HarnessError, is_effect_free}

pub record RetryPolicy : Type 0 where
  pub max_attempts : ℕ
  pub max_elapsed_ms : ℕ
  pub base_delay_ms : ℕ
  pub max_delay_ms : ℕ
  pub honor_server_hint : Bool

abbrev pub default_retry_policy : RetryPolicy
default_retry_policy = record {
  max_attempts = 10;
  max_elapsed_ms = 5 * 60 * 1000;
  base_delay_ms = 500;
  max_delay_ms = 30000;
  honor_server_hint = true;
}

-- `numerator / denominator`, in [0, 1).
pub record Fraction : Type 0 where
  pub numerator : ℕ
  pub denominator : ℕ
  pub proper : numerator < denominator

unfoldable pub backoff_bound_ms : RetryPolicy → ℕ → ℕ
backoff_bound_ms policy attempt = min policy.max_delay_ms (policy.base_delay_ms * 2 ^ attempt)

-- `Math.floor(r * (bound + 1))`
unfoldable pub full_jitter_delay_ms : RetryPolicy → ℕ → Fraction → ℕ
full_jitter_delay_ms policy attempt r =
    r.numerator * (backoff_bound_ms policy attempt + 1) / r.denominator

pub record RetryState : Type 0 where
  pub attempt : ℕ
  pub elapsed_ms : ℕ

pub data RetryRefusal : Type 0 where
  not_retryable user_action_required visible_output_emitted side_effect_uncertain : RetryRefusal
  attempts_exhausted time_exhausted : RetryRefusal

pub data RetryDecision : Type 0 where
  retry : (delay_ms : ℕ) → RetryDecision
  refuse : (reason : RetryRefusal) → RetryDecision

-- The hint where the policy honours it and the server gave one, the jittered delay otherwise.
abbrev pub chosen_delay : Bool → Option ℕ → ℕ → ℕ
chosen_delay true (some hint) jittered = hint
chosen_delay _ _ jittered = jittered

-- `attempt` is at least 1 where the source calls this, so `attempt - 1` is not below 0; the source
-- takes the maximum with 0 too.
unfoldable pub decide_retry : HarnessError → RetryState → Fraction → RetryPolicy → RetryDecision
unfolding full_jitter_delay_ms
decide_retry error state rng policy =
    let jittered = full_jitter_delay_ms policy (state.attempt - 1) rng in
    let delay = chosen_delay policy.honor_server_hint error.retry_after_ms jittered in
    if not error.retryable
    then refuse not_retryable
    else if error.user_action_required
    then refuse user_action_required
    else if error.visible_output_emitted
    then refuse visible_output_emitted
    else if not (is_effect_free error.side_effect_certainty)
    then refuse side_effect_uncertain
    else if leb policy.max_attempts state.attempt
    then refuse attempts_exhausted
    else if leb policy.max_elapsed_ms state.elapsed_ms
    then refuse time_exhausted
    else if ltb policy.max_elapsed_ms (state.elapsed_ms + delay)
    then refuse time_exhausted
    else retry delay
