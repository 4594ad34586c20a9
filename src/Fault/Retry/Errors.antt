-- ===== src/Fault/Retry/Errors.antt =====
-- Which results the loop can return.
use notes_microservices.Prelude.{
  ℕ, zero, suc, ◌+◌, ◌-◌, ◌≡◌, refl, ◌∙◌, ◌⊎◌, inl, inr, true, Option, some, min, max, arith,
  Bool-cases, Option-cases,
}
use notes_microservices.Failure.{Err}
use notes_microservices.Fault.Retry.Steps.{retry_from-ends, retry_from-cancelled, retry_from-again}
use notes_microservices.Fault.Retry.{Retry, Return, ends, cancelled, retry_from, retry_execute}

module _ {ℓ κ} {S : Type ℓ} {T : Type κ} (rt : Retry) (operation : S → Return T × S)
    (wait : ℕ → S → Option Err × S) (zero_value : T) (calls : S → ℕ)
    (calls-operation : (s : S) → calls (operation s).1 ≡ calls s + 1)
    (calls-wait : (b : ℕ) (s : S) → calls (wait b s).1 ≡ calls s) where
  -- A result of a call that ended the loop, or of the last of `n` calls after `s`; or the
  -- cancellation of a wait, with no value.
  abbrev pub IsOutcome : S → ℕ → Return T × S → Type (ℓ ⊔ κ)
  IsOutcome s n r =
      ((s0 : S) × (r ≡ operation s0) × ((ends rt r.0.error ≡ true) ⊎ (calls r.1 ≡ calls s + n)))
      ⊎ ((e : Err) × (b : ℕ) × (s0 : S) × (wait b s0 ≡ (some e, r.1))
          × (r.0 ≡ cancelled zero_value e))

  one_more :
      (s s' : S) (n : ℕ) (r : Return T × S)
      → calls s' ≡ calls s + 1
      → IsOutcome s' n r
      → IsOutcome s (suc n) r
  one_more s s' n r e (inl (s0, same, inl ended)) = inl (s0, same, inl ended)
  one_more s s' n r e (inl (s0, same, inr last)) = inl (s0, same, inr (omega arith))
  one_more s s' n r e (inr cancelled_wait) = inr cancelled_wait

  retry_from-IsOutcome :
      (left backoff : ℕ) (s : S)
      → IsOutcome s (suc left) (retry_from rt operation wait zero_value left backoff s)
  unfolding retry_from
  retry_from-IsOutcome zero backoff s = inl (s, refl, inr (calls-operation s))
  retry_from-IsOutcome (suc left) backoff s = elim (Bool-cases (ends rt (operation s).0.error)) [
    | inl e ↦
        rw (retry_from-ends rt operation wait zero_value (suc left) backoff s e)
          (inl (s, refl, inl e))
    | inr e ↦ elim (Option-cases (wait backoff (operation s).1).0) [
      | inl d ↦ rw (retry_from-again rt operation wait zero_value left backoff s e d) (
          one_more s _ (suc left) _ (calls-wait backoff _ ∙ calls-operation s) (
            retry_from-IsOutcome left (min (rt.grow backoff) rt.max_backoff)
              (wait backoff (operation s).1).1))
      | inr (c, d) ↦
          rw (retry_from-cancelled rt operation wait zero_value left backoff s c e d) (
            inr (c, backoff, (operation s).1, (λ i. (d i, (wait backoff (operation s).1).1)), refl))
    ]
  ]

  -- What the loop returns is the result of a call of the operation, one that succeeded, that failed
  -- with an error that is not retried, or that was the last of the `MaxAttempts` allowed; or it is
  -- the zero value with the cancellation error, after a wait that the context cut short.
  pub retry_execute-IsOutcome :
      (s : S) → IsOutcome s (max rt.max_attempts 1) (retry_execute rt operation wait zero_value s)
  unfolding retry_execute
  retry_execute-IsOutcome s =
      let e : suc (max rt.max_attempts 1 - 1) ≡ max rt.max_attempts 1 = omega arith in
      rw e at (retry_from-IsOutcome (max rt.max_attempts 1 - 1) rt.initial_backoff s)
