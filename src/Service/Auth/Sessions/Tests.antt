-- ===== src/Service/Auth/Sessions/Tests.antt =====
-- A run on the fixture.
use notes_microservices.Prelude.{◌≤◌, count, true, List, [], ◌∷◌, arith}
use notes_microservices.Action.{ok}
use notes_microservices.Ports.{PasswordService, TokenService}
use notes_microservices.Postgres.Store.{Database}
use notes_microservices.Postgres.Fixture.{server, database}
use notes_microservices.Postgres.Live.{is_live}
use notes_microservices.Service.Auth.Sessions.{
  LeaveTokens, Request, refresh_of, logout_of, profile_of, cleanup, ask_all,
  sessions_never_multiply,
}

abbrev passwords : PasswordService Database
passwords = record { hash = λ p s. (ok p, s); verify = λ p h s. (ok true, s) }

abbrev signer : TokenService Database
signer = record {
  generate_access_token = λ id username s. (ok ("access", 20), s);
  generate_refresh_token = λ id s. (ok ("refresh", 300), s);
  validate_access_token = λ token s. (ok "u1", s);
}

leave : LeaveTokens signer "u1" 1
leave = record {
  access = λ id name. record { at = λ db h. h };
  refresh = λ id. record { at = λ db h. h };
}

abbrev requests : List Request
requests = refresh_of "h1" ∷ refresh_of "refresh" ∷ logout_of "h2" ∷ profile_of "u1" ∷ cleanup ∷ []

sessions_never_multiply_example :
    count (is_live "u1") (ask_all server (λ t. t) passwords signer requests database).tokens ≤ 1
sessions_never_multiply_example =
    sessions_never_multiply server (λ t. t) passwords signer "u1" 1 leave requests database
      (omega arith)
