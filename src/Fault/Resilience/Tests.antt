-- ===== src/Fault/Resilience/Tests.antt =====
-- The entry points on a service that counts its calls and has a clock.
use notes_microservices.Prelude.{ℕ, ◌+◌, ◌≡◌, refl, Bool, Option, none, some, zero, suc}
use notes_microservices.Failure.{Err, sentinel, service_unavailable, is}
use notes_microservices.Fault.Breaker.{CircuitBreaker, state_open, allow, record_result}
use notes_microservices.Fault.Retry.{Return}
use notes_microservices.Fault.Resilience.{
  ServiceResilience, new_service_resilience, execute_with_resilience_result,
}

record Service : Type 0 where
  time : ℕ
  calls : ℕ

abbrev unavailable : Return ℕ
unavailable = record { value = 0; error = some (sentinel service_unavailable) }

abbrev ask : Service → Return ℕ × Service
ask s = (unavailable, record s { time = s.time + 1; calls = s.calls + 1 })

abbrev pause : ℕ → Service → Option Err × Service
pause b s = (none, record s { time = s.time + b })

abbrev is_infra : Err → Bool
is_infra e = is e service_unavailable

abbrev resilience : ServiceResilience
unfolding new_service_resilience
resilience = new_service_resilience "notes-service" (some is_infra) 0

abbrev start : Service
start = record { time = 5; calls = 0 }

abbrev breaker : CircuitBreaker
unfolding new_service_resilience
breaker = resilience.circuit_breaker

abbrev tripped_breaker : CircuitBreaker
unfolding new_service_resilience
tripped_breaker = record breaker { state = state_open; last_change = 1; failures = 5 }

three_attempts :
    (execute_with_resilience_result (λ s. s.time) pause resilience 0 ask breaker start).2.calls ≡ 3
unfolding execute_with_resilience_result new_service_resilience allow record_result
three_attempts = refl

abbrev flaky : Service → Return ℕ × Service
flaky s = (
  elim s.calls [ zero ↦ unavailable | suc n ↦ record { value = n + 7; error = none } ],
  record s { time = s.time + 1; calls = s.calls + 1 },
)
