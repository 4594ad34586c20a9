-- ===== src/Fault/Breaker/Tests.antt =====
-- The breaker on concrete calls.
use notes_microservices.Prelude.{
  ℕ, ◌+◌, ◌≡◌, refl, true, false, Option, none, some, List, [], ◌∷◌, ◌++◌, arith,
}
use notes_microservices.Failure.{
  Err, sentinel, circuit_open, service_unavailable, user_not_found, is,
}
use notes_microservices.Fault.Breaker.{
  CircuitBreaker, state_closed, state_open, state_half_open, allow, record_result,
}
use notes_microservices.Fault.Breaker.Schedule.{
  Event, asks, reports, step, interleave, Call, execute_call, execute_all,
}
use notes_microservices.Fault.Breaker.Invariant.{IsValid, interleave-IsValid, benign_stays_closed}
use notes_microservices.Fault.Breaker.Phase.{
  IsQuiet, policy_of, phase_of, phase_all, execute_all-refines,
}
use notes_microservices.Fault.Breaker.Recovery.{recovers}
use notes_microservices.Fault.Breaker.Late.{
  late_successes, late_successes_close, late_report_admits_second,
}

abbrev fresh : CircuitBreaker
fresh = record {
  last_change = 0;
  timeout = 10;
  is_failure = some (λ e. is e service_unavailable);
  name = "auth-service";
  error_threshold = 2;
  success_threshold = 2;
  failures = 0;
  successes = 0;
  state = state_closed;
  half_open_in_flight = false;
}

abbrev down : Option Err
down = some (sentinel service_unavailable)

abbrev call_at : ℕ → Option Err → Call
call_at t e = record { start = t; end = t + 1; outcome = e }

abbrev outage : List Call
outage =
    call_at 1 down
    ∷ call_at 3 down
    ∷ call_at 5 none
    ∷ call_at 20 none
    ∷ call_at 22 none
    ∷ call_at 24 none
    ∷ []

execute_all-outage :
    (execute_all outage fresh).0
    ≡ down ∷ down ∷ some (sentinel circuit_open) ∷ none ∷ none ∷ none ∷ []
unfolding execute_all execute_call allow record_result
execute_all-outage = refl

execute_all-refines_example :
    let (rs, cb') = execute_all outage fresh in
    let (rs', ph') = phase_all (policy_of fresh) outage (phase_of fresh) in
    (rs ≡ rs') × (phase_of cb' ≡ ph') × IsQuiet cb'
execute_all-refines_example = execute_all-refines outage fresh (ground arith)

abbrev events : List Event
events = asks 1 ∷ asks 2 ∷ reports 3 down ∷ reports 4 down ∷ asks 20 ∷ reports 21 none ∷ []

interleave-IsValid_example : IsValid (interleave fresh events)
interleave-IsValid_example = interleave-IsValid fresh events (ground arith)

benign_stays_closed_example :
    ((interleave fresh (reports 1 (some (sentinel user_not_found)) ∷ [])).state ≡ state_closed)
    × ((now : ℕ)
        → (allow now (interleave fresh (reports 1 (some (sentinel user_not_found)) ∷ []))).0 ≡ none)
benign_stays_closed_example =
    benign_stays_closed fresh (reports 1 (some (sentinel user_not_found)) ∷ []) refl (refl, tt)

abbrev opened : CircuitBreaker
opened = record fresh { state = state_open; last_change = 5; failures = 2 }

late_successes_close_example :
    (interleave opened (late_successes (6 ∷ []) ++ asks 20 ∷ reports 21 none ∷ [])).state
    ≡ state_closed
late_successes_close_example =
    late_successes_close opened (6 ∷ []) 20 21 refl (omega arith) (omega arith)

-- Without the late success the same probe leaves the breaker half-open.
no_late_success : (interleave opened (asks 20 ∷ reports 21 none ∷ [])).state ≡ state_half_open
unfolding interleave step allow record_result
no_late_success = refl

abbrev probing_breaker : CircuitBreaker
probing_breaker = record fresh { state = state_half_open; half_open_in_flight = true }

late_report_admits_second_example : (allow 31 (record_result 30 none probing_breaker)).0 ≡ none
unfolding record_result
late_report_admits_second_example = late_report_admits_second probing_breaker 30 31 none refl refl

-- Open since 3, with a timeout of 10.
abbrev broken : CircuitBreaker
broken = record fresh { state = state_open; last_change = 3; failures = 2 }

recovers_example :
    (execute_all (call_at 20 none ∷ call_at 22 none ∷ []) broken).1.state ≡ state_closed
recovers_example =
    recovers (call_at 20 none) (call_at 22 none ∷ []) broken refl (λ tripped. omega arith)
      (refl, (refl, tt)) (omega arith)
