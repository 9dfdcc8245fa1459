-- ===== src/Provider/Retry/Bounds.antt =====
-- packages/provider-core/src/retry.ts: the bounds of a delay, and the decision against the test of
-- packages/protocol/src/errors.ts.
use qwen_harness.Prelude.{ℕ, ◌+◌, ◌-◌, ◌*◌, ◌/◌, ◌^◌, ◌≤◌, ◌<◌, min, true, ◌≡◌, ◌↔◌, arith}
use native.Mathlib.Nat.{div-lt_iff_lt-mul, mul-lt-mul_of_pos_right, mul_comm}
use qwen_harness.Protocol.Errors.{HarnessError, can_retry_transparently}
use qwen_harness.Provider.Retry.{
  RetryPolicy, Fraction, RetryState, retry, backoff_bound_ms, full_jitter_delay_ms, chosen_delay,
  decide_retry,
}

-- The jittered delay is at most the exponential bound, and with it at most the cap of the policy.
full_jitter_delay_ms-le :
    (policy : RetryPolicy) (attempt : ℕ) (r : Fraction)
    → (full_jitter_delay_ms policy attempt r ≤ policy.max_delay_ms)
      × (full_jitter_delay_ms policy attempt r ≤ policy.base_delay_ms * 2 ^ attempt)
unfolding full_jitter_delay_ms backoff_bound_ms
full_jitter_delay_ms-le policy attempt r =
    let bound = min policy.max_delay_ms (policy.base_delay_ms * 2 ^ attempt) in
    let below : r.numerator * (bound + 1) < r.denominator * (bound + 1) =
      mul-lt-mul_of_pos_right r.proper (omega arith) in
    let swap : r.denominator * (bound + 1) ≡ (bound + 1) * r.denominator = mul_comm _ _ in
    let small : r.numerator * (bound + 1) / r.denominator < bound + 1 =
      (div-lt_iff_lt-mul (omega (arith, r.proper))).1 (omega (arith, below, swap)) in
    (omega (arith, small), omega (arith, small))

-- What the source compares before it retries after `delay`.
abbrev pub IsAllowed : HarnessError → RetryState → Fraction → RetryPolicy → ℕ → Type 0
IsAllowed error state rng policy delay =
    (can_retry_transparently error ≡ true)
    × (state.attempt < policy.max_attempts)
    × (state.elapsed_ms < policy.max_elapsed_ms)
    × (state.elapsed_ms + delay ≤ policy.max_elapsed_ms)
    × (delay
        ≡ chosen_delay policy.honor_server_hint error.retry_after_ms
            (full_jitter_delay_ms policy (state.attempt - 1) rng))

pub decide_retry_sound :
    (error : HarnessError) (state : RetryState) (rng : Fraction) (policy : RetryPolicy) (delay : ℕ)
    → decide_retry error state rng policy ≡ retry delay
    → IsAllowed error state rng policy delay
unfolding decide_retry can_retry_transparently
decide_retry_sound error state rng policy delay h = ground arith

decide_retry_complete :
    (error : HarnessError) (state : RetryState) (rng : Fraction) (policy : RetryPolicy) (delay : ℕ)
    → IsAllowed error state rng policy delay
    → decide_retry error state rng policy ≡ retry delay
unfolding decide_retry can_retry_transparently
decide_retry_complete error state rng policy delay (e, a, b, c, d) = ground arith

-- The decision is to retry after a delay exactly if the error allows a transparent retry, attempts
-- and time are left, the delay is the hint (where there is one and the policy honours it) or the
-- jittered one, and it ends within the time of the policy.
pub decide_retry_iff :
    (error : HarnessError) (state : RetryState) (rng : Fraction) (policy : RetryPolicy) (delay : ℕ)
    → (decide_retry error state rng policy ≡ retry delay) ↔ IsAllowed error state rng policy delay
decide_retry_iff error state rng policy delay = (
  decide_retry_sound error state rng policy delay,
  decide_retry_complete error state rng policy delay,
)
