-- ===== src/Fault/Retry.antt =====
-- `Retry` and `retryExecute` of internal/fault/fault.go. The operation, and the wait on the timer or
-- the context, read and write a state of the caller's; log lines are left out.
pub mod Steps
pub mod Attempts
pub mod Errors
mod Tests
use notes_microservices.Prelude.{
  ℕ, zero, suc, ◌-◌, String, Bool, true, false, not, ◌||◌, Option, none, some, min, max,
}
use notes_microservices.Failure.{Err, sentinel, both, context_canceled}

-- `grow b` is `time.Duration(float64(b) * rt.BackoffFactor)`; times are in nanoseconds.
pub record Retry : Type 0 where
  pub initial_backoff : ℕ
  pub max_backoff : ℕ
  pub should_retry : Err → Bool
  pub name : String
  pub grow : ℕ → ℕ
  pub max_attempts : ℕ

-- Go's `(T, error)`, both parts present.
pub record Return {ℓ} (T : Type ℓ) : Type ℓ where
  pub value : T
  pub error : Option Err

-- `err == nil || !rt.ShouldRetry(err)`
abbrev pub ends : Retry → Option Err → Bool
ends rt none = true
ends rt (some e) = not (rt.should_retry e)

-- The result when the context is done during a wait: no value, and why.
abbrev pub cancelled {ℓ} : {T : Type ℓ} → T → Err → Return T
cancelled zero_value e = record {
  value = zero_value;
  error = some (both (sentinel context_canceled) e);
}

-- `operation` is the call that is tried. `wait b` blocks for the backoff `b`, or until the context is
-- done, when it returns `ctx.Err()`. `zero` is the zero value of `T`.
module _ {ℓ κ} {S : Type ℓ} {T : Type κ} (rt : Retry) (operation : S → Return T × S)
    (wait : ℕ → S → Option Err × S) (zero_value : T) where
  -- The loop with `left` attempts to come after this one, so that `attempt >= maxAttempts` is
  -- `left = 0`: the last attempt's result is returned, an error too.
  unfoldable pub retry_from : ℕ → ℕ → S → Return T × S
  retry_from zero backoff s = operation s
  retry_from (suc left) backoff s =
      let (out, s') = operation s in
      elim (ends rt out.error) [
        | true ↦ (out, s')
        | false ↦
            let (done, s'') = wait backoff s' in
            elim done [
              | some e ↦ (cancelled zero_value e, s'')
              | none ↦ retry_from left (min (rt.grow backoff) rt.max_backoff) s''
            ]
      ]

  unfoldable pub retry_execute : S → Return T × S
  unfolding retry_from
  retry_execute s = retry_from (max rt.max_attempts 1 - 1) rt.initial_backoff s
