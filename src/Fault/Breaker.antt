-- ===== src/Fault/Breaker.antt =====
-- The circuit breaker of internal/fault/fault.go. A method holds the mutex throughout, so it is one
-- step from a state to a state, at one reading `now` of the clock. Log lines are left out.
pub mod Schedule
pub mod Invariant
pub mod Phase
pub mod Late
pub mod Recovery
mod Tests
use notes_microservices.Prelude.{
  ℕ, ◌+◌, ◌-◌, String, Bool, true, false, not, ◌&&◌, Option, none, some, leb, if◌then◌else◌,
}
use notes_microservices.Failure.{Err, sentinel, circuit_open}

pub data CircuitState : Type 0 where
  state_closed state_open state_half_open : CircuitState

abbrev pub is_closed : CircuitState → Bool
is_closed state_closed = true
is_closed _ = false

abbrev pub is_half_open : CircuitState → Bool
is_half_open state_half_open = true
is_half_open _ = false

-- Times are in nanoseconds. `is_failure` may be nil.
pub record CircuitBreaker : Type 0 where
  pub last_change : ℕ
  pub timeout : ℕ
  pub is_failure : Option (Err → Bool)
  pub name : String
  pub error_threshold : ℕ
  pub success_threshold : ℕ
  pub failures : ℕ
  pub successes : ℕ
  pub state : CircuitState
  pub half_open_in_flight : Bool

-- The `switch` of `allow`; the error says that the call is rejected.
allow_in : CircuitState → ℕ → CircuitBreaker → Option Err × CircuitBreaker
allow_in state_open now cb =
    if leb (now - cb.last_change) cb.timeout then (some (sentinel circuit_open), cb) else (
      none,
      record cb { state = state_half_open; last_change = now; half_open_in_flight = true },
    )
allow_in state_half_open now cb =
    if cb.half_open_in_flight
    then (some (sentinel circuit_open), cb)
    else (none, record cb { half_open_in_flight = true })
allow_in state_closed now cb = (none, cb)

unfoldable pub allow : ℕ → CircuitBreaker → Option Err × CircuitBreaker
unfolding allow_in
allow now cb = allow_in cb.state now cb

unfoldable pub trip : ℕ → CircuitBreaker → CircuitBreaker
trip now cb = record cb { state = state_open; last_change = now; successes = 0 }

-- `cb.IsFailure != nil && !cb.IsFailure(err)`
abbrev pub is_ignored : Option (Err → Bool) → Err → Bool
is_ignored none e = false
is_ignored (some is_failure) e = not (is_failure e)

-- The rest of `record` for an error that counts.
record_failure : ℕ → CircuitBreaker → CircuitBreaker
unfolding trip
record_failure now cb =
    let cb' = record cb { failures = cb.failures + 1 } in
    if is_closed cb'.state && leb cb'.error_threshold cb'.failures
    then trip now cb'
    else if is_half_open cb'.state
    then trip now cb'
    else cb'

-- The rest of `record` for a call that returned no error.
record_success : ℕ → CircuitBreaker → CircuitBreaker
record_success now cb =
    if is_closed cb.state
    then record cb { failures = 0 }
    else let cb' = record cb { successes = cb.successes + 1 } in
      if is_half_open cb'.state && leb cb'.success_threshold cb'.successes
      then record cb' { state = state_closed; last_change = now; failures = 0; successes = 0 }
      else cb'

record_outcome : ℕ → Option Err → CircuitBreaker → CircuitBreaker
unfolding record_failure record_success
record_outcome now (some e) cb = if is_ignored cb.is_failure e then cb else record_failure now cb
record_outcome now none cb = record_success now cb

-- The method `record`: the error, if any, of a call that was allowed.
unfoldable pub record_result : ℕ → Option Err → CircuitBreaker → CircuitBreaker
unfolding record_outcome
record_result now err cb = record_outcome now err (record cb { half_open_in_flight = false })

unfoldable pub get_state : CircuitBreaker → CircuitState
get_state cb = cb.state
