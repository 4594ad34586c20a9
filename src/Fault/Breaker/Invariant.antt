-- ===== src/Fault/Breaker/Invariant.antt =====
-- What holds of a breaker between two critical sections, whatever calls interleave.
use notes_microservices.Prelude.{
  ℕ, ◌<◌, ◌≡◌, sym, Bool, true, Option, none, some, All, List, [], ◌∷◌, arith,
}
use mathlib.Core.Path.{subst}
use notes_microservices.Failure.{Err}
use notes_microservices.Fault.Breaker.{
  CircuitBreaker, state_closed, state_half_open, is_ignored, allow, record_result,
}
use notes_microservices.Fault.Breaker.Schedule.{Event, asks, reports, step, interleave}

pub record IsValid (cb : CircuitBreaker) : Type 0 where
  pub threshold_pos : 0 < cb.error_threshold
  pub closed_below : cb.state ≡ state_closed → cb.failures < cb.error_threshold
  pub closed_clear : cb.state ≡ state_closed → cb.successes ≡ 0
  pub probe_half_open : cb.half_open_in_flight ≡ true → cb.state ≡ state_half_open

pub allow-IsValid : (now : ℕ) (cb : CircuitBreaker) → IsValid cb → IsValid (allow now cb).1
unfolding allow
allow-IsValid now cb h = ground arith

pub record_result-IsValid :
    (now : ℕ) (e : Option _) (cb : CircuitBreaker) → IsValid cb → IsValid (record_result now e cb)
unfolding record_result
record_result-IsValid now (some e) cb h = ground arith
record_result-IsValid now _ cb h = ground arith

step-IsValid : (cb : CircuitBreaker) (e : Event) → IsValid cb → IsValid (step cb e)
unfolding step
step-IsValid cb (asks now) h = allow-IsValid now cb h
step-IsValid cb (reports now e) h = record_result-IsValid now e cb h

-- In any interleaving of calls, a breaker that starts valid stays valid: while it is closed it has
-- counted fewer failures than the threshold and no successes, and a probe is marked as in flight
-- only in the half-open state.
pub interleave-IsValid :
    (cb : CircuitBreaker) (es : List Event) → IsValid cb → IsValid (interleave cb es)
unfolding interleave
interleave-IsValid cb [] h = h
interleave-IsValid cb (e ∷ es) h = interleave-IsValid (step cb e) es (step-IsValid cb e h)

abbrev pub IsBenign : Option (Err → Bool) → Event → Type 0
IsBenign is_failure (asks now) = Unit
IsBenign is_failure (reports now none) = Unit
IsBenign is_failure (reports now (some e)) = is_ignored is_failure e ≡ true

step_benign :
    (cb : CircuitBreaker) (e : Event)
    → cb.state ≡ state_closed
    → IsBenign cb.is_failure e
    → ((step cb e).state ≡ state_closed) × ((step cb e).is_failure ≡ cb.is_failure)
unfolding step allow record_result
step_benign cb (asks now) h b = ground arith
step_benign cb (reports now none) h b = ground arith
step_benign cb (reports now (some e)) h b = ground arith

-- Errors that `IsFailure` does not count never open the breaker: from the closed state, any
-- interleaving of calls that succeed or fail with such errors leaves it closed, and so letting
-- every call in.
pub benign_stays_closed :
    (cb : CircuitBreaker) (es : List Event)
    → cb.state ≡ state_closed
    → All (IsBenign cb.is_failure) es
    → ((interleave cb es).state ≡ state_closed)
      × ((now : ℕ) → (allow now (interleave cb es)).0 ≡ none)
unfolding interleave allow
benign_stays_closed cb [] h b = (h, λ now. ground arith)
benign_stays_closed cb (e ∷ es) h (b, bs) =
    let (closed, same) = step_benign cb e h b in
    benign_stays_closed (step cb e) es closed (subst (λ f. All (IsBenign f) es) (sym same) bs)
