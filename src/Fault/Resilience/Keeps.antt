-- ===== src/Fault/Resilience/Keeps.antt =====
-- Guarded calls and the parts of the state that the operation leaves alone.
use notes_microservices.Prelude.{ℕ, zero, suc, ◌≡◌, Option, arith, max, min, ◌-◌}
use notes_microservices.Failure.{Err}
use notes_microservices.Fault.Breaker.{CircuitBreaker}
use notes_microservices.Fault.Retry.{Retry, Return, retry_execute, retry_from}
use notes_microservices.Fault.Resilience.{
  ServiceResilience, execute_circuit_only, execute_circuit_only_result,
  execute_with_resilience_result,
}

module _ {S V : Type 0} (view : S → V) (wait : ℕ → S → Option Err × S)
    (idle : (b : ℕ) (s : S) → view (wait b s).1 ≡ view s) where
  module _ {T : Type 0} (operation : S → Return T × S) (zero_value : T)
      (keeps : (s : S) → view (operation s).1 ≡ view s) where
    retry_from-keeps :
        (rt : Retry) (left backoff : ℕ) (s : S)
        → view (retry_from rt operation wait zero_value left backoff s).1 ≡ view s
    unfolding retry_from
    retry_from-keeps rt zero backoff s = keeps s
    retry_from-keeps rt (suc left) backoff s =
        let (out, s') = operation s in
        let (done, s'') = wait backoff s' in
        let first = keeps s in
        let second = idle backoff s' in
        let rest = retry_from-keeps rt left (min (rt.grow backoff) rt.max_backoff) s'' in
        ground (arith, first, second, rest)

    -- So for a call with the retry loop and for one without.
    pub result-keeps :
        (now : S → ℕ) (r : ServiceResilience) (cb : CircuitBreaker) (s : S)
        → (view (execute_with_resilience_result now wait r zero_value operation cb s).2 ≡ view s)
          × (view (execute_circuit_only_result now wait r zero_value operation cb s).2 ≡ view s)
    unfolding execute_with_resilience_result execute_circuit_only_result retry_execute
    result-keeps now r cb s =
        let once = keeps s in
        let retried =
          retry_from-keeps r.retry (max r.retry.max_attempts 1 - 1) r.retry.initial_backoff s in
        (ground (arith, retried), ground (arith, once))

  pub error-keeps :
      (operation : S → Option Err × S)
      → ((s : S) → view (operation s).1 ≡ view s)
      → (now : S → ℕ) (r : ServiceResilience) (cb : CircuitBreaker) (s : S)
      → view (execute_circuit_only now wait r operation cb s).2 ≡ view s
  unfolding execute_circuit_only
  error-keeps operation keeps now r cb s = let once = keeps s in ground (arith, once)
