-- ===== src/Fault/Resilience.antt =====
-- `Execute`, `NewServiceResilience` and the four entry points of internal/fault/fault.go that put the
-- breaker around an operation, with or without the retry loop. A call is modelled as it runs when no
-- other call of the service meets the breaker; for what meets, see Breaker/Schedule. `now s` is the
-- clock as it stands in the state `s`.
pub mod Guarantees
pub mod Keeps
mod Tests
use notes_microservices.Prelude.{
  ℕ, ◌*◌, String, Bool, true, false, not, Option, none, some, if◌then◌else◌,
}
use notes_microservices.Failure.{Err, canceled, deadline_exceeded, is}
use notes_microservices.Fault.Breaker.{CircuitBreaker, state_closed, allow, record_result}
use notes_microservices.Fault.Retry.{Retry, Return, retry_from, retry_execute}

abbrev pub millisecond : ℕ
millisecond = 1000000

abbrev pub second : ℕ
second = 1000000000

pub record ServiceResilience : Type 0 where
  pub circuit_breaker : CircuitBreaker
  pub retry : Retry
  pub service_name : String

-- The closure `shouldRetry`; `isInfraError` may be nil.
abbrev pub should_retry : Option (Err → Bool) → Err → Bool
should_retry is_infra e =
    if is e canceled
    then false
    else elim is_infra [ some f ↦ f e | none ↦ not (is e deadline_exceeded) ]

-- A factor of 2.0 is exact on the durations that occur, so it is a multiplication.
unfoldable pub new_service_resilience : String → Option (Err → Bool) → ℕ → ServiceResilience
new_service_resilience service_name is_infra now = record {
  service_name = service_name;
  circuit_breaker = record {
    last_change = now;
    timeout = 10 * second;
    is_failure = is_infra;
    name = service_name;
    error_threshold = 5;
    success_threshold = 2;
    failures = 0;
    successes = 0;
    state = state_closed;
    half_open_in_flight = false;
  };
  retry = record {
    initial_backoff = 100 * millisecond;
    max_backoff = 1 * second;
    should_retry = should_retry is_infra;
    name = service_name;
    grow = λ b. b * 2;
    max_attempts = 3;
  };
}

module _ {ℓ} {S : Type ℓ} (now : S → ℕ) where
  -- `(*CircuitBreaker).Execute`
  unfoldable pub execute :
      (S → Option Err × S) → CircuitBreaker → S → Option Err × CircuitBreaker × S
  execute fn cb s =
      let (rejected, cb') = allow (now s) cb in
      elim rejected [
        | some e ↦ (some e, cb', s)
        | none ↦ let (err, s') = fn s in (err, record_result (now s') err cb', s')
      ]

module _ {ℓ} {S : Type ℓ} (now : S → ℕ) (wait : ℕ → S → Option Err × S)
    (r : ServiceResilience) where
  -- The breaker, which the calls change, is passed beside `r`.
  unfoldable pub execute_circuit_only :
      (S → Option Err × S) → CircuitBreaker → S → Option Err × CircuitBreaker × S
  unfolding execute
  execute_circuit_only operation cb s = execute now operation cb s

  -- `(*Retry).Execute`: the loop at the type with one value.
  abbrev retry_errors : (S → Option Err × S) → S → Option Err × S
  retry_errors operation s =
      let (out, s') =
        retry_execute {T = Unit {0}} r.retry
          (λ s. let (e, s') = operation s in (record { value = tt; error = e }, s')) wait tt s in
      (out.error, s')

  unfoldable pub execute_with_resilience :
      (S → Option Err × S) → CircuitBreaker → S → Option Err × CircuitBreaker × S
  unfolding execute retry_execute
  execute_with_resilience operation cb s = execute now (retry_errors operation) cb s

module _ {ℓ} {S : Type ℓ} (now : S → ℕ) (wait : ℕ → S → Option Err × S) (r : ServiceResilience)
    {T : Type ℓ} (zero_value : T) where
  -- The variable `result` that the closure assigns is a part of the state while `Execute` runs.
  abbrev assigning : (S → Return T × S) → T × S → Option Err × (T × S)
  assigning operation captured =
      let (out, s') = operation captured.1 in (out.error, (out.value, s'))

  abbrev guarded : (S → Return T × S) → CircuitBreaker → S → Return T × CircuitBreaker × S
  guarded operation cb s =
      let (e, cb', captured) = execute (λ c. now c.1) (assigning operation) cb (zero_value, s) in
      (record { value = captured.0; error = e }, cb', captured.1)

  unfoldable pub execute_circuit_only_result :
      (S → Return T × S) → CircuitBreaker → S → Return T × CircuitBreaker × S
  unfolding execute
  execute_circuit_only_result operation cb s = guarded operation cb s

  unfoldable pub execute_with_resilience_result :
      (S → Return T × S) → CircuitBreaker → S → Return T × CircuitBreaker × S
  unfolding execute retry_execute
  execute_with_resilience_result operation cb s =
      guarded (retry_execute r.retry operation wait zero_value) cb s
