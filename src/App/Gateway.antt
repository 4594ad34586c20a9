-- ===== src/App/Gateway.antt =====
-- internal/app/gateway.go: the services of the gateway, each with a breaker of its own. The state is
-- the breaker and what the backend and the cache keep. A pointer result is an `Option`; in Go the
-- caller of a nil result without an error panics, and here it gets that result.
pub mod Profile
pub mod Limits
use Prim.Native.String.{◌++◌}
use notes_microservices.Prelude.{
  ℕ, ℤ, pos, ◌-◌, min, String, Bool, true, false, ◌||◌, ◌&&◌, not, Option, none, some, List, [],
  str_eq, ltb, gtb_ℤ, is_neg, if◌then◌else◌,
}
use notes_microservices.Failure.{Err, is, service_unavailable, deadline_exceeded}
use notes_microservices.Action.{Action, Result, ok, err, within}
use notes_microservices.Domain.{Time, Note, User, TokenPair}
use notes_microservices.Ports.{AuthBackend, NotesBackend, Cache}
use notes_microservices.Fault.Breaker.{CircuitBreaker}
use notes_microservices.Fault.Retry.{Return}
use notes_microservices.Fault.Resilience.{
  ServiceResilience, second, new_service_resilience, execute_circuit_only,
  execute_circuit_only_result, execute_with_resilience_result,
}

abbrev pub is_infra_error : Err → Bool
is_infra_error e = is e service_unavailable || is e deadline_exceeded

-- The fields `resilience` of `NewAuthService` and `NewNotesService`, made at the time `at`.
abbrev pub auth_resilience : Time → ServiceResilience
auth_resilience at = new_service_resilience "auth-service" (some is_infra_error) at

abbrev pub notes_resilience : Time → ServiceResilience
notes_resilience at = new_service_resilience "notes-service" (some is_infra_error) at

abbrev pub max_int32 : ℕ
max_int32 = 2147483647

unfoldable pub clamp_non_negative : ℤ → ℤ
clamp_non_negative value =
    if gtb_ℤ value max_int32 then pos max_int32 else if is_neg value then pos 0 else value

-- The two results of an operation, nil or zero with an error.
module _ {A : Type 0} where
  abbrev pub pointer : Result A → Return (Option A)
  pointer (ok a) = record { value = some a; error = none }
  pointer (err e) = record { value = none; error = some e }

  abbrev pub value_or : A → Result A → Return A
  value_or zero_value (ok a) = record { value = a; error = none }
  value_or zero_value (err e) = record { value = zero_value; error = some e }

  abbrev pub error_of : Result A → Option Err
  error_of (ok a) = none
  error_of (err e) = some e

abbrev pub State : Type 0 → Type 0
State S = CircuitBreaker × S

module _ {S : Type 0} (now : S → Time) (wait : ℕ → S → Option Err × S) (r : ServiceResilience)
    {A : Type 0} where
  -- `ExecuteCircuitOnlyResult`, `ExecuteWithResilienceResult` and `ExecuteCircuitOnly` of a method of
  -- the backend whose error is wrapped.
  abbrev pub once : String → Action S A → State S → Return (Option A) × State S
  once context call (cb, s) =
      let (out, cb', s') =
        execute_circuit_only_result now wait r none
          (λ s. let (x, s') = within context call s in (pointer x, s')) cb s in
      (out, (cb', s'))

  abbrev pub retried : String → Action S A → State S → Return (Option A) × State S
  retried context call (cb, s) =
      let (out, cb', s') =
        execute_with_resilience_result now wait r none
          (λ s. let (x, s') = within context call s in (pointer x, s')) cb s in
      (out, (cb', s'))

  abbrev pub retried_value : A → String → Action S A → State S → Return A × State S
  retried_value zero_value context call (cb, s) =
      let (out, cb', s') =
        execute_with_resilience_result now wait r zero_value
          (λ s. let (x, s') = within context call s in (value_or zero_value x, s')) cb s in
      (out, (cb', s'))

  abbrev pub once_error : String → Action S A → State S → Option Err × State S
  once_error context call (cb, s) =
      let (out, cb', s') =
        execute_circuit_only now wait r
          (λ s. let (x, s') = within context call s in (error_of x, s')) cb s in
      (out, (cb', s'))

-- `AuthService` without the profile, and `NotesService`.
module _ {S : Type 0} (now : S → Time) (wait : ℕ → S → Option Err × S) (r : ServiceResilience)
    (client : AuthBackend S) where
  unfoldable pub register : String → String → String → State S → Return (Option TokenPair) × State S
  unfolding execute_circuit_only_result
  register email username password =
      once now wait r "register" (client.register email username password)

  unfoldable pub login : String → String → State S → Return (Option TokenPair) × State S
  unfolding execute_circuit_only_result
  login email password = once now wait r "login" (client.login email password)

  unfoldable pub refresh_tokens : String → State S → Return (Option TokenPair) × State S
  unfolding execute_circuit_only_result
  refresh_tokens refresh_token =
      once now wait r "refresh tokens" (client.refresh_tokens refresh_token)

  unfoldable pub logout : String → State S → Option Err × State S
  unfolding execute_circuit_only
  logout refresh_token = once_error now wait r "logout" (client.logout refresh_token)

module _ {S : Type 0} (now : S → Time) (wait : ℕ → S → Option Err × S) (r : ServiceResilience)
    (client : NotesBackend S) where
  unfoldable pub create_note : String → String → String → State S → Return (Option Note) × State S
  unfolding execute_circuit_only_result
  create_note token title content =
      once now wait r "create note" (client.create_note token title content)

  unfoldable pub get_note : String → String → State S → Return (Option Note) × State S
  unfolding execute_with_resilience_result
  get_note token note_id = retried now wait r "get note" (client.get_note token note_id)

  unfoldable pub list_notes : String → ℤ → ℤ → State S → Return (List Note × ℤ) × State S
  unfolding execute_with_resilience_result clamp_non_negative
  list_notes token limit offset =
      retried_value now wait r ([], pos 0) "list notes"
        (client.list_notes token (clamp_non_negative limit) (clamp_non_negative offset))

  unfoldable pub update_note :
      String → String → Option String → Option String → State S → Return (Option Note) × State S
  unfolding execute_circuit_only_result
  update_note token note_id title content =
      once now wait r "update note" (client.update_note token note_id title content)

  unfoldable pub delete_note : String → String → State S → Option Err × State S
  unfolding execute_circuit_only
  delete_note token note_id = once_error now wait r "delete note" (client.delete_note token note_id)
