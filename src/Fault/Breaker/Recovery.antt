-- ===== src/Fault/Breaker/Recovery.antt =====
-- How a breaker that has opened closes again.
use notes_microservices.Prelude.{
  ℕ, ◌+◌, ◌-◌, ◌≤◌, ◌<◌, ◌≡◌, refl, false, none, List, [], ◌∷◌, All, length, leb, arith, inl, inr,
  Bool-cases,
}
use notes_microservices.Fault.Breaker.{
  CircuitState, CircuitBreaker, state_closed, state_open, state_half_open, allow, record_result,
}
use notes_microservices.Fault.Breaker.Schedule.{Call, execute_call, execute_all}

-- A call that returned no error.
abbrev Succeeds : Call → Type 0
Succeeds call = call.outcome ≡ none

closed-call :
    (call : Call) (cb : CircuitBreaker)
    → cb.state ≡ state_closed
    → Succeeds call
    → (execute_call call cb).1.state ≡ state_closed
unfolding execute_call allow record_result
closed-call call cb closed fine = ground arith

stays_closed :
    (calls : List Call) (cb : CircuitBreaker)
    → cb.state ≡ state_closed
    → All Succeeds calls
    → (execute_all calls cb).1.state ≡ state_closed
unfolding execute_all
stays_closed [] cb closed fine = closed
stays_closed (call ∷ calls) cb closed (one, others) =
    stays_closed calls ((execute_call call cb).1) (closed-call call cb closed one) others

-- What a breaker is that closes with so many more successes: closed, or probing.
pub data Owes (cb : CircuitBreaker) (n : ℕ) : Type 0 where
  recovered : cb.state ≡ state_closed → Owes cb n
  probing :
      cb.state ≡ state_half_open
      → cb.half_open_in_flight ≡ false
      → cb.successes < cb.success_threshold
      → cb.success_threshold ≤ cb.successes + n
      → Owes cb n

-- A successful call of a breaker that lets it in as a probe.
probe-Owes :
    (call : Call) (cb : CircuitBreaker) (n : ℕ)
    → cb.state ≡ state_half_open
    → cb.half_open_in_flight ≡ false
    → cb.success_threshold ≤ cb.successes + 1 + n
    → Succeeds call
    → Owes ((execute_call call cb).1) n
unfolding execute_call allow record_result
probe-Owes call cb n half free enough fine =
    elim (Bool-cases (leb cb.success_threshold (cb.successes + 1))) [
      | inl last ↦ recovered (ground arith)
      | inr more ↦ probing (ground arith) (ground arith) (ground arith) (ground arith)
    ]

-- An open breaker whose timeout has passed makes a call its first probe.
reopened-Owes :
    (call : Call) (cb : CircuitBreaker) (n : ℕ)
    → cb.state ≡ state_open
    → cb.timeout < call.start - cb.last_change
    → cb.success_threshold ≤ cb.successes + 1 + n
    → Succeeds call
    → Owes ((execute_call call cb).1) n
unfolding execute_call allow record_result
reopened-Owes call cb n tripped waited enough fine =
    elim (Bool-cases (leb cb.success_threshold (cb.successes + 1))) [
      | inl last ↦ recovered (ground arith)
      | inr more ↦ probing (ground arith) (ground arith) (ground arith) (ground arith)
    ]

Owes-closes :
    (calls : List Call) (cb : CircuitBreaker)
    → Owes cb (length calls)
    → All Succeeds calls
    → (execute_all calls cb).1.state ≡ state_closed
unfolding execute_all
Owes-closes [] cb (recovered closed) fine = closed
Owes-closes [] cb (probing half free short enough) fine = ground arith
Owes-closes (call ∷ calls) cb (recovered closed) (one, others) =
    stays_closed calls ((execute_call call cb).1) (closed-call call cb closed one) others
Owes-closes (call ∷ calls) cb (probing half free short enough) (one, others) =
    Owes-closes calls ((execute_call call cb).1)
      (probe-Owes call cb (length calls) half free (omega (arith, enough)) one) others

first-Owes :
    (call : Call) (cb : CircuitBreaker) (n : ℕ) (state : CircuitState)
    → cb.state ≡ state
    → cb.half_open_in_flight ≡ false
    → (cb.state ≡ state_open → cb.timeout < call.start - cb.last_change)
    → cb.success_threshold ≤ n + 1
    → Succeeds call
    → Owes ((execute_call call cb).1) n
first-Owes call cb n state_closed same free waited enough fine =
    recovered (closed-call call cb same fine)
first-Owes call cb n state_open same free waited enough fine =
    reopened-Owes call cb n same (waited same) (omega (arith, enough)) fine
first-Owes call cb n state_half_open same free waited enough fine =
    probe-Owes call cb n same free (omega (arith, enough)) fine

-- A breaker with no probe under way is closed after as many successful calls, one after another, as
-- SuccessThreshold says, and after one where it says 0, if the first of them starts when the timeout
-- of an open breaker has passed.
pub recovers :
    (first : Call) (calls : List Call) (cb : CircuitBreaker)
    → cb.half_open_in_flight ≡ false
    → (cb.state ≡ state_open → cb.timeout < first.start - cb.last_change)
    → All Succeeds (first ∷ calls)
    → cb.success_threshold ≤ length (first ∷ calls)
    → (execute_all (first ∷ calls) cb).1.state ≡ state_closed
unfolding execute_all
recovers first calls cb free waited (one, others) enough =
    Owes-closes calls ((execute_call first cb).1)
      (first-Owes first cb (length calls) cb.state refl free waited (omega (arith, enough)) one)
      others
