-- ===== src/Fault/Resilience/Guarantees.antt =====
-- What the entry points promise a service.
use notes_microservices.Prelude.{ℕ, ◌+◌, ◌≤◌, ◌≡◌, max, Option, none, some, arith}
use notes_microservices.Failure.{Err}
use notes_microservices.Fault.Breaker.{CircuitBreaker, allow, record_result}
use notes_microservices.Fault.Retry.{Return, retry_execute}
use notes_microservices.Fault.Retry.Attempts.{calls-retry_execute}
use notes_microservices.Fault.Resilience.{
  ServiceResilience, execute_circuit_only_result, execute_with_resilience_result,
}

module _ {ℓ} {S : Type ℓ} (now : S → ℕ) (wait : ℕ → S → Option Err × S) (r : ServiceResilience)
    {T : Type ℓ} (zero_value : T) (operation : S → Return T × S) (cb : CircuitBreaker) (s : S) where
  abbrev with_retry : Return T × CircuitBreaker × S
  with_retry = execute_with_resilience_result now wait r zero_value operation cb s

  abbrev without_retry : Return T × CircuitBreaker × S
  without_retry = execute_circuit_only_result now wait r zero_value operation cb s

  -- A call that the breaker rejects returns the rejection and the zero value, and does not run the
  -- operation: the state is the one before. So with the retry loop and without.
  pub rejected-result :
      (e : Err)
      → (allow (now s) cb).0 ≡ some e
      → (execute_with_resilience_result now wait r zero_value operation cb s
          ≡ (record { value = zero_value; error = some e }, (allow (now s) cb).1, s))
        × (execute_circuit_only_result now wait r zero_value operation cb s
            ≡ (record { value = zero_value; error = some e }, (allow (now s) cb).1, s))
  unfolding execute_with_resilience_result execute_circuit_only_result
  rejected-result e h = (ground arith, ground arith)

  -- A call that it lets in returns what the retry loop, or the one call of the operation, returns,
  -- and that error is what is reported to the breaker.
  pub admitted-result :
      (allow (now s) cb).0 ≡ none
      → let (out, s') = retry_execute r.retry operation wait zero_value s in
        let (once, s'') = operation s in
        (execute_with_resilience_result now wait r zero_value operation cb s
          ≡ (out, record_result (now s') out.error (allow (now s) cb).1, s'))
        × (execute_circuit_only_result now wait r zero_value operation cb s
            ≡ (once, record_result (now s'') once.error (allow (now s) cb).1, s''))
  unfolding execute_with_resilience_result execute_circuit_only_result
  admitted-result h = (ground arith, ground arith)

  -- Calls of the operation, by a meter that a call moves by one and a wait does not move: at most
  -- `MaxAttempts` with the retry loop, and at most one without, whatever the errors and the breaker.
  pub calls-result :
      (calls : S → ℕ)
      → ((t : S) → calls (operation t).1 ≡ calls t + 1)
      → ((b : ℕ) (t : S) → calls (wait b t).1 ≡ calls t)
      → (calls (execute_with_resilience_result now wait r zero_value operation cb s).2
          ≤ calls s + max r.retry.max_attempts 1)
        × (calls (execute_circuit_only_result now wait r zero_value operation cb s).2 ≤ calls s + 1)
  unfolding execute_with_resilience_result execute_circuit_only_result
  calls-result calls one_call no_call = ground (
    arith,
    one_call s,
    calls-retry_execute r.retry operation wait zero_value calls one_call no_call s,
  )
