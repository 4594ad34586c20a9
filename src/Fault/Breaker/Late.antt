-- ===== src/Fault/Breaker/Late.antt =====
-- What late reports do: calls that were let in before the breaker opened, and that end after.
-- And what a report that never comes does.
use notes_microservices.Prelude.{
  ℕ, ◌+◌, ◌-◌, ◌<◌, ◌≤◌, ◌≡◌, refl, false, Option, none, some, List, [], ◌∷◌, ◌++◌, length, arith,
}
use notes_microservices.Failure.{Err}
use notes_microservices.Fault.Breaker.{
  CircuitBreaker, state_closed, state_open, state_half_open, allow, record_result,
}
use notes_microservices.Fault.Breaker.Schedule.{Event, asks, reports, step, interleave}

abbrev pub late_successes : List ℕ → List Event
late_successes [] = []
late_successes (t ∷ ts) = reports t none ∷ late_successes ts

pub interleave-append :
    (cb : CircuitBreaker) (es fs : List Event)
    → interleave cb (es ++ fs) ≡ interleave (interleave cb es) fs
unfolding interleave
interleave-append cb [] fs = refl
interleave-append cb (e ∷ es) fs = interleave-append (step cb e) es fs

record_late_success :
    (t : ℕ) (cb : CircuitBreaker)
    → cb.state ≡ state_open
    → record_result t none cb
      ≡ record cb { successes = cb.successes + 1; half_open_in_flight = false }
unfolding record_result
record_late_success t cb h = ground arith

-- A success that is reported while the breaker is open is counted, and the count outlives the
-- change to half-open: with one late success less than the threshold asks for, or more, a single
-- successful probe closes the breaker.
pub late_successes_close :
    (cb : CircuitBreaker) (late : List ℕ) (start end : ℕ)
    → cb.state ≡ state_open
    → cb.timeout < start - cb.last_change
    → cb.success_threshold ≤ cb.successes + length late + 1
    → (interleave cb (late_successes late ++ asks start ∷ reports end none ∷ [])).state
      ≡ state_closed
unfolding interleave step allow record_result
late_successes_close cb [] start end o t h = ground arith
late_successes_close cb (l ∷ late) start end o t h =
    late_successes_close (record_result l none cb) late start end (ground arith) (ground arith)
      (ground arith)

-- A late report that leaves the breaker half-open clears the mark of the probe that is under way,
-- so the next call is let in beside it.
pub late_report_admits_second :
    (cb : CircuitBreaker) (t now : ℕ) (e : Option Err)
    → cb.state ≡ state_half_open
    → (record_result t e cb).state ≡ state_half_open
    → (allow now (record_result t e cb)).0 ≡ none
unfolding allow record_result
late_report_admits_second cb t now (some e) h k = ground arith
late_report_admits_second cb t now none h k = ground arith
