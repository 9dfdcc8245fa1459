-- ===== src/Provider/Retry/Loop.antt =====
-- packages/provider-core/src/retry.ts: a whole sequence of attempts. Each fails, waits for the delay
-- of the decision, and spends some time on the next attempt.
use qwen_harness.Prelude.{ℕ, suc, ◌+◌, ◌≤◌, max, ◌≡◌, refl, arith}
use qwen_harness.Protocol.Errors.{HarnessError}
use qwen_harness.Provider.Retry.{RetryPolicy, Fraction, RetryState, retry, decide_retry}
use qwen_harness.Provider.Retry.Bounds.{decide_retry_iff}

abbrev pub first_failure : ℕ → RetryState
first_failure elapsed_ms = record { attempt = 1; elapsed_ms = elapsed_ms }

abbrev pub after_retry : RetryState → ℕ → ℕ → RetryState
after_retry state delay spent = record {
  attempt = suc state.attempt;
  elapsed_ms = state.elapsed_ms + delay + spent;
}

-- From the first failure, some retries with a total time of waiting lead to a state.
pub data Retries (policy : RetryPolicy) : RetryState → ℕ → ℕ → Type 0 where
  failed_once : (elapsed_ms : ℕ) → Retries policy (first_failure elapsed_ms) 0 0
  again :
      (state : RetryState) (retries waited : ℕ) (error : HarnessError) (rng : Fraction)
      (delay spent : ℕ)
      → Retries policy state retries waited
      → decide_retry error state rng policy ≡ retry delay
      → Retries policy (after_retry state delay spent) (suc retries) (waited + delay)

Retries-counted :
    (policy : RetryPolicy) (state : RetryState) (retries waited : ℕ)
    → Retries policy state retries waited
    → (state.attempt ≡ suc retries) × waited ≤ state.elapsed_ms
Retries-counted policy _ _ _ (failed_once elapsed_ms) = (refl, omega arith)
Retries-counted policy _ _ _ (again state retries waited error rng delay spent before decided) =
    let (counted, waits) = Retries-counted policy state retries waited before in
    (omega (arith, counted), omega (arith, waits))

-- However the attempts fail and whatever the server hints, a sequence of retries stays within the
-- attempts of the policy (the first included), and its waiting within the time of the policy.
pub Retries-bounded :
    (policy : RetryPolicy) (state : RetryState) (retries waited : ℕ)
    → Retries policy state retries waited
    → (suc retries ≤ max 1 policy.max_attempts) × waited ≤ policy.max_elapsed_ms
Retries-bounded policy _ _ _ (failed_once elapsed_ms) = (omega arith, omega arith)
Retries-bounded policy _ _ _ (again state retries waited error rng delay spent before decided) =
    let (counted, waits) = Retries-counted policy state retries waited before in
    let (free, more, early, fits, chosen) =
      (decide_retry_iff error state rng policy delay).0 decided in
    (omega (arith, counted, more), omega (arith, waits, fits))
