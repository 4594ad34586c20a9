-- ===== src/Fault/Retry/Attempts.antt =====
-- How often the loop calls its operation, and how long it waits: counted by two meters on the
-- caller's state, of which the hypotheses say only that a call or a wait moves its own meter.
use notes_microservices.Prelude.{
  ℕ, zero, suc, ◌+◌, ◌-◌, ◌*◌, ◌≤◌, ◌<◌, ◌≡◌, true, Option, min, max, arith, ap, ◌∙◌,
}
use notes_microservices.Failure.{Err}
use notes_microservices.Fault.Retry.Steps.{retry_from-ends}
use notes_microservices.Fault.Retry.{Retry, Return, ends, retry_from, retry_execute}

module _ {ℓ κ} {S : Type ℓ} {T : Type κ} (rt : Retry) (operation : S → Return T × S)
    (wait : ℕ → S → Option Err × S) (zero_value : T) (calls : S → ℕ)
    (calls-operation : (s : S) → calls (operation s).1 ≡ calls s + 1)
    (calls-wait : (b : ℕ) (s : S) → calls (wait b s).1 ≡ calls s) where
  calls-retry_from :
      (left backoff : ℕ) (s : S)
      → let s' = (retry_from rt operation wait zero_value left backoff s).1 in
        (calls s < calls s') × (calls s' ≤ calls s + 1 + left)
  unfolding retry_from
  calls-retry_from zero backoff s = omega (arith, calls-operation s)
  calls-retry_from (suc left) backoff s =
      let (out, s') = operation s in
      let (done, s'') = wait backoff s' in
      ground (
        arith,
        calls-operation s,
        calls-wait backoff s',
        calls-retry_from left (min (rt.grow backoff) rt.max_backoff) s'',
      )

  -- Whatever the errors, the operation is called at least once and at most `MaxAttempts` times (once
  -- if `MaxAttempts` is 0).
  pub calls-retry_execute :
      (s : S)
      → let s' = (retry_execute rt operation wait zero_value s).1 in
        (calls s < calls s') × (calls s' ≤ calls s + max rt.max_attempts 1)
  unfolding retry_execute
  calls-retry_execute s =
      omega (arith, calls-retry_from (max rt.max_attempts 1 - 1) rt.initial_backoff s)

  -- An operation whose first call succeeds, or fails with an error that is not retried, is called
  -- exactly once, and its result is returned.
  pub retry_execute-once :
      (s : S)
      → ends rt (operation s).0.error ≡ true
      → (retry_execute rt operation wait zero_value s ≡ operation s)
        × (calls (retry_execute rt operation wait zero_value s).1 ≡ calls s + 1)
  unfolding retry_execute
  retry_execute-once s e =
      let same =
        retry_from-ends rt operation wait zero_value (max rt.max_attempts 1 - 1) rt.initial_backoff
          s e in
      (same, ap (λ r. calls r.1) same ∙ calls-operation s)

module _ {ℓ κ} {S : Type ℓ} {T : Type κ} (rt : Retry) (operation : S → Return T × S)
    (wait : ℕ → S → Option Err × S) (zero_value : T) (slept : S → ℕ)
    (slept-operation : (s : S) → slept (operation s).1 ≡ slept s)
    (slept-wait : (b : ℕ) (s : S) → slept (wait b s).1 ≤ slept s + b) where
  slept-retry_from :
      (left backoff : ℕ) (s : S)
      → backoff ≤ rt.max_backoff
      → slept (retry_from rt operation wait zero_value left backoff s).1
        ≤ slept s + left * rt.max_backoff
  unfolding retry_from
  slept-retry_from zero backoff s h = omega (arith, slept-operation s)
  slept-retry_from (suc left) backoff s h =
      let (out, s') = operation s in
      let (done, s'') = wait backoff s' in
      ground (
        arith,
        slept-operation s,
        slept-wait backoff s',
        slept-retry_from left (min (rt.grow backoff) rt.max_backoff) s'',
      )

  -- Between the attempts the loop waits at most `MaxBackoff` each time, one time less than there may
  -- be attempts, if the first backoff is no longer than that.
  pub slept-retry_execute :
      (s : S)
      → rt.initial_backoff ≤ rt.max_backoff
      → slept (retry_execute rt operation wait zero_value s).1
        ≤ slept s + (max rt.max_attempts 1 - 1) * rt.max_backoff
  unfolding retry_execute
  slept-retry_execute s h = slept-retry_from (max rt.max_attempts 1 - 1) rt.initial_backoff s h
