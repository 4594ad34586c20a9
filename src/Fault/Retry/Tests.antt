-- ===== src/Fault/Retry/Tests.antt =====
-- The retry loop on a scripted service: a state lists the results to come, and counts the calls and
-- the nanoseconds waited.
use notes_microservices.Prelude.{
  ℕ, ◌+◌, ◌*◌, ◌≤◌, ◌<◌, ◌≡◌, refl, Option, none, some, List, [], ◌∷◌,
}
use notes_microservices.Failure.{Err, sentinel, deadline_exceeded, service_unavailable, is}
use notes_microservices.Fault.Retry.{Retry, Return, retry_execute}
use notes_microservices.Fault.Retry.Attempts.{calls-retry_execute}
use notes_microservices.Fault.Retry.Errors.{IsOutcome, retry_execute-IsOutcome}

record Script : Type 0 where
  to_come : List (Return ℕ)
  calls : ℕ
  slept : ℕ

next_result : List (Return ℕ) → Return ℕ
next_result [] = record { value = 0; error = none }
next_result (r ∷ rs) = r

rest_of : List (Return ℕ) → List (Return ℕ)
rest_of [] = []
rest_of (r ∷ rs) = rs

abbrev call_service : Script → Return ℕ × Script
call_service s =
    (next_result s.to_come, record s { to_come = rest_of s.to_come; calls = s.calls + 1 })

-- The context is done after 250 ns of waiting.
abbrev wait_for : ℕ → Script → Option Err × Script
wait_for b s = (
  elim (Prim.Native.Nat.compare (s.slept + b) 250) [
    | Prim.Native.Nat.Ordering.gt ↦ some (sentinel deadline_exceeded)
    | _ ↦ none
  ],
  record s { slept = s.slept + b },
)

abbrev policy : Retry
policy = record {
  initial_backoff = 100;
  max_backoff = 150;
  should_retry = λ e. is e service_unavailable;
  name = "notes-service";
  grow = λ b. b * 2;
  max_attempts = 3;
}

abbrev failed : Return ℕ
failed = record { value = 0; error = some (sentinel service_unavailable) }

abbrev script : List (Return ℕ) → Script
script rs = record { to_come = rs; calls = 0; slept = 0 }

retry_twice :
    retry_execute policy call_service wait_for 0
      (script (failed ∷ failed ∷ record { value = 7; error = none } ∷ []))
    ≡ (record { value = 7; error = none }, record { to_come = []; calls = 3; slept = 250 })
unfolding retry_execute next_result rest_of
retry_twice = refl

calls-retry_execute_example :
    let s' = (retry_execute policy call_service wait_for 0 (script (failed ∷ []))).1 in
    (0 < s'.calls) × (s'.calls ≤ 3)
calls-retry_execute_example =
    calls-retry_execute policy call_service wait_for 0 (λ s. s.calls) (λ s. refl) (λ b s. refl)
      (script (failed ∷ []))

retry_execute-IsOutcome_example :
    IsOutcome policy call_service wait_for 0
      (λ s. s.calls)
      (λ s. refl)
      (λ b s. refl)
      (script (failed ∷ []))
      3
      (retry_execute policy call_service wait_for 0 (script (failed ∷ [])))
retry_execute-IsOutcome_example =
    retry_execute-IsOutcome policy call_service wait_for 0 (λ s. s.calls) (λ s. refl) (λ b s. refl)
      (script (failed ∷ []))

-- The service answers at once with an error that is not retried.
abbrev refused : Script
refused = script (record { value = 0; error = some (sentinel deadline_exceeded) } ∷ [])
