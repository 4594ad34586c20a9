-- ===== src/System/Tests.antt =====
-- A request of the user u2 against the notes of u1, on the fixture and a wire that loses nothing.
use notes_microservices.Prelude.{
  ℕ, ◌≡◌, ◌≢◌, refl, ap, inr, String, true, Option, none, some, str_eq, str_neq, trim_space,
}
use notes_microservices.Failure.{Err}
use notes_microservices.Action.{Result, ok, err}
use notes_microservices.Fault.Breaker.{CircuitBreaker}
use notes_microservices.Fault.Resilience.{ServiceResilience, new_service_resilience}
use notes_microservices.App.Gateway.{State, notes_resilience}
use notes_microservices.Postgres.Store.{Database}
use notes_microservices.Postgres.Notes.Isolation.{notes_of}
use notes_microservices.Postgres.Fixture.{server, database}
use notes_microservices.Jwt.{
  JwtLibrary, Claims, validate_access_token, new_access_verifier, token_use_access,
}
use notes_microservices.Http.Notes
use notes_microservices.Http.Notes.{CreateNoteRequest, UpdateNoteRequest}
use notes_microservices.System.{Wire, notes_service}
use notes_microservices.System.Tenancy.{requests_leave_others}
use notes_microservices.System.Tenancy.Calls.{IsLossy}

abbrev u2_claims : Claims
u2_claims = record {
  user_id = "u2";
  username = "eve";
  token_use = token_use_access;
  id = "id";
  issued_at = 0;
  expires_at = 1000;
  subject = "u2";
}

-- Every token is one of u2.
abbrev library : JwtLibrary
library = record {
  numeric_date = λ t. t;
  signed_string = λ key c. ok "token";
  parse = λ now key token. ok (true, u2_claims);
  new_string = λ n. "id";
}

abbrev direct : Wire Database
direct = record { deliver = λ m. m }

direct-IsLossy : IsLossy direct
direct-IsLossy = record { runs = λ m db. (db, refl, inr refl) }

abbrev pause : ℕ → Database → Option Err × Database
pause b db = (none, db)

abbrev resilience : ServiceResilience
unfolding new_service_resilience
resilience = notes_resilience 0

abbrev service : Notes.NotesService (CircuitBreaker × Database)
service =
    notes_service server library "secret" str_eq direct (λ c. "") (λ db. (ok tt, db)) pause
      resilience

abbrev user_or : Result String → String
user_or (ok id) = id
user_or (err e) = ""

not_of_u1 :
    (at : ℕ)
    → validate_access_token library (new_access_verifier "secret") at (trim_space "token") ≢ ok "u1"
unfolding validate_access_token
not_of_u1 at same =
    let differs = str_neq "u2" "u1" refl in
    let is_u2 : "u2" ≡ "u1" = ap user_or same in differs is_u2

abbrev st : State Database
st = (resilience.circuit_breaker, database)

abbrev mine : UpdateNoteRequest
mine = record { title = some "Mine"; content = some "" }

abbrev bread : CreateNoteRequest
bread = record { title = "Bread"; content = "one" }

requests_leave_others_example :
    (notes_of "u1" (Notes.create_note service "token" (some bread) st).1.1 ≡ notes_of "u1" database)
    × (notes_of "u1" (Notes.get_note service "token" "n1" st).1.1 ≡ notes_of "u1" database)
    × (notes_of "u1" (Notes.list_notes service (λ raw. none) "token" "" "" st).1.1
        ≡ notes_of "u1" database)
    × (notes_of "u1" (Notes.update_note service "token" "n1" (some mine) st).1.1
        ≡ notes_of "u1" database)
    × (notes_of "u1" (Notes.replace_note service "token" "n1" (some mine) st).1.1
        ≡ notes_of "u1" database)
    × (notes_of "u1" (Notes.delete_note service "token" "n1" st).1.1 ≡ notes_of "u1" database)
requests_leave_others_example =
    requests_leave_others server library "secret" str_eq direct (λ c. "") (λ db. (ok tt, db)) pause
      resilience "u1" "token" refl direct-IsLossy (λ b db. refl) not_of_u1 (some bread) (some mine)
      "n1" (λ raw. none) "" "" st
