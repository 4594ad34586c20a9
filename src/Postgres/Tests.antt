-- ===== src/Postgres/Tests.antt =====
-- The repositories on the fixture.
use notes_microservices.Prelude.{◌≡◌, ◌≢◌, refl, some, none, true, count, arith, [], ◌∷◌}
use notes_microservices.Failure.{Err, foreign, other, sentinel, pg, wrap, email_already_exists}
use notes_microservices.Action.{ok, err}
use notes_microservices.Domain.{User, RefreshToken}
use notes_microservices.Postgres.Store.{Server, Database, take_turn, scan_one}
use notes_microservices.Postgres.Errors.{contains, has_prefix}
use notes_microservices.Postgres.Users.{create}
use notes_microservices.Postgres.Users.Taken.{free_email_reported_taken}
use notes_microservices.Postgres.Tokens.{rotate_refresh_token, revoked}
use notes_microservices.Postgres.Tokens.Once.{exchanged_once}
use notes_microservices.Postgres.Fixture.{bob, server, database, live_token, next_token, violation}

-- Another user takes the name `email_fan`, at a server that quotes names.
abbrev quoting_server : Server
quoting_server = record server {
  username_taken = λ u. violation "users_username_key" "Key (username)=(email_fan) already exists.";
}

abbrev fan : User
fan = record bob { id = "u2"; email = "fan@mail.com"; username = "email_fan" }

abbrev with_fan : Database
with_fan = record database { users = bob ∷ fan ∷ [] }

free_email_reported_taken_example :
    create quoting_server (record fan { email = "new@mail.com" }) with_fan
    ≡ (err (sentinel email_already_exists), with_fan)
unfolding contains has_prefix take_turn
free_email_reported_taken_example =
    free_email_reported_taken quoting_server (record fan { email = "new@mail.com" }) with_fan refl
      refl refl refl refl

abbrev after_rotation : Database
after_rotation = (rotate_refresh_token server "h1" (some next_token) database).1

rotation_test :
    (rotate_refresh_token server "h1" (some next_token) database).0 ≡ ok (revoked live_token)
unfolding rotate_refresh_token scan_one
rotation_test = refl

exchanged_once_example :
    (rotate_refresh_token server "h1" (some next_token) after_rotation).0 ≢ ok live_token
exchanged_once_example =
    exchanged_once server "h1" next_token next_token database after_rotation (revoked live_token)
      live_token rotation_test refl (omega arith)

abbrev same_hash : RefreshToken
same_hash = record next_token { token = "h1" }

abbrev taken : Err
taken =
    wrap "tokens.RotateRefreshToken insert"
      (pg (violation "refresh_tokens_token_key" "Key (token) already exists."))

failed_rotation_test : (rotate_refresh_token server "h1" (some same_hash) database).0 ≡ err taken
unfolding rotate_refresh_token scan_one
failed_rotation_test = refl

-- A rotation whose commit reports an error, at a server that takes it and at one that does not.
abbrev failing_commit : Database
failing_commit = record database {
  turns =
      record { elapsed = 0; fault = none }
      ∷ record { elapsed = 0; fault = none }
      ∷ record { elapsed = 0; fault = none }
      ∷ record { elapsed = 0; fault = some (foreign other "connection reset") }
      ∷ [];
}

kept_after_failed_commit :
    (rotate_refresh_token server "h1" (some next_token) failing_commit).1.tokens ≡ database.tokens
unfolding rotate_refresh_token scan_one
kept_after_failed_commit = refl

exchanged_by_failed_commit :
    count
      (λ t. t.is_revoked)
      (rotate_refresh_token
        (record server { commits_anyway = λ db. true })
        "h1"
        (some next_token)
        failing_commit).1.tokens
    ≡ 2
unfolding rotate_refresh_token scan_one
exchanged_by_failed_commit = refl
