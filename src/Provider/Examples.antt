-- ===== src/Provider/Examples.antt =====
-- Runs of the retry decision at concrete inputs.
use qwen_harness.Prelude.{◌≤◌, max, true, false, ◌≡◌, refl, some, none, arith}
use qwen_harness.Protocol.Errors.{HarnessError, SideEffectCertainty}
use qwen_harness.Provider.Retry.{
  Fraction, RetryRefusal, retry, refuse, default_retry_policy, full_jitter_delay_ms,
  backoff_bound_ms, decide_retry,
}
use qwen_harness.Provider.Retry.Loop.{
  Retries, failed_once, again, first_failure, after_retry, Retries-bounded,
}

-- 3 / 4
abbrev three_quarters : Fraction
three_quarters = record { numerator = 3; denominator = 4; proper = omega arith }

abbrev rate_limit : HarnessError
rate_limit = record {
  retryable = true;
  user_action_required = false;
  side_effect_certainty = SideEffectCertainty.not_started;
  visible_output_emitted = false;
  retry_after_ms = none;
}

abbrev hinted : HarnessError
hinted = record rate_limit { retry_after_ms = some 400000 }

abbrev half_shown : HarnessError
half_shown = record rate_limit { visible_output_emitted = true }

first_retry :
    decide_retry rate_limit (first_failure 1000) three_quarters default_retry_policy ≡ retry 375
unfolding decide_retry full_jitter_delay_ms backoff_bound_ms
first_retry = refl

-- A hint beyond the time of the policy ends the sequence.
hint_too_long :
    decide_retry hinted (first_failure 1000) three_quarters default_retry_policy
    ≡ refuse RetryRefusal.time_exhausted
unfolding decide_retry
hint_too_long = refl

shown_refused :
    decide_retry half_shown (first_failure 1000) three_quarters default_retry_policy
    ≡ refuse RetryRefusal.visible_output_emitted
unfolding decide_retry
shown_refused = refl

one_retry : Retries default_retry_policy (after_retry (first_failure 1000) 375 20) 1 375
one_retry =
    again (first_failure 1000) 0 0 rate_limit three_quarters 375 20 (failed_once 1000) first_retry

Retries-bounded_example : (2 ≤ max 1 10) × 375 ≤ 300000
Retries-bounded_example =
    Retries-bounded default_retry_policy (after_retry (first_failure 1000) 375 20) 1 375 one_retry
