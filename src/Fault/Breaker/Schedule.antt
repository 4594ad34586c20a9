-- ===== src/Fault/Breaker/Schedule.antt =====
-- How calls meet at one breaker. `Execute` takes the mutex twice, so the two halves of concurrent
-- calls interleave freely; a client that waits for each call sees the two halves side by side.
use notes_microservices.Prelude.{ℕ, Option, none, some, List, [], ◌∷◌}
use notes_microservices.Failure.{Err}
use notes_microservices.Fault.Breaker.{CircuitBreaker, allow, record_result}

-- One critical section: a call asks to be let in, or an earlier call reports how it ended.
pub data Event : Type 0 where
  asks : (now : ℕ) → Event
  reports : (now : ℕ) → Option Err → Event

unfoldable pub step : CircuitBreaker → Event → CircuitBreaker
step cb (asks now) = (allow now cb).1
step cb (reports now e) = record_result now e cb

-- Any sequence of critical sections.
unfoldable pub interleave : CircuitBreaker → List Event → CircuitBreaker
interleave cb [] = cb
interleave cb (e ∷ es) = interleave (step cb e) es

-- One call that nothing interrupts: when it starts, when it ends, and what the operation returns.
pub record Call : Type 0 where
  pub start : ℕ
  pub end : ℕ
  pub outcome : Option Err

-- `Execute` with the operation's outcome given.
conclude : Option Err → Call → CircuitBreaker → Option Err × CircuitBreaker
conclude (some e) call cb = (some e, cb)
conclude none call cb = (call.outcome, record_result call.end call.outcome cb)

unfoldable pub execute_call : Call → CircuitBreaker → Option Err × CircuitBreaker
unfolding conclude
execute_call call cb = let (rejected, cb') = allow call.start cb in conclude rejected call cb'

-- `Execute` with an operation that panics: the breaker when the panic goes on to the caller. Nothing
-- of `Execute` runs after the operation, as nothing is deferred. The result is the error of a call
-- that was rejected, and none where the panic goes on.
unfoldable pub panicking_call : ℕ → CircuitBreaker → Option Err × CircuitBreaker
panicking_call start cb = allow start cb

-- A client that makes one call after another: what each call returned, and the breaker at the end.
unfoldable pub execute_all : List Call → CircuitBreaker → List (Option Err) × CircuitBreaker
execute_all [] cb = ([], cb)
execute_all (call ∷ calls) cb =
    let (r, cb') = execute_call call cb in let (rs, cb'') = execute_all calls cb' in (r ∷ rs, cb'')
