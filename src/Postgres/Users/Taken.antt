-- ===== src/Postgres/Users/Taken.antt =====
-- What `Create` reports of a username that is taken.
use notes_microservices.Prelude.{◌≡◌, true, false, none, any, arith, eq_iff}
use notes_microservices.Failure.{sentinel, email_already_exists}
use notes_microservices.Action.{err}
use notes_microservices.Domain.{User}
use notes_microservices.Postgres.Store.{Server, Database, take_turn, statement, scan_one}
use notes_microservices.Postgres.Errors.{map_unique_violation, contains, unique_violation}
use notes_microservices.Postgres.Users.{has_email, has_username, insert_user, create}

-- A user whose e-mail address is free and whose name is taken is refused with the error for a taken
-- address, and nothing is stored, if the database answers and its error is a unique violation whose
-- detail text has the word email: the detail quotes the name, so that a name such as `email_fan` does.
pub free_email_reported_taken :
    (sv : Server) (u : User) (db : Database)
    → (take_turn db.turns db).0 ≡ none
    → any (has_email u.email) (take_turn db.turns db).1.users ≡ false
    → any (has_username u.username) (take_turn db.turns db).1.users ≡ true
    → (sv.username_taken u).code ≡ unique_violation
    → contains "email" (sv.username_taken u).detail ≡ true
    → create sv u db ≡ (err (sentinel email_already_exists), (take_turn db.turns db).1)
unfolding create scan_one statement insert_user map_unique_violation
free_email_reported_taken sv u db answers free taken code_is quoted =
    let (fault, db') = take_turn db.turns db in
    ground (arith, eq_iff (sv.username_taken u).code unique_violation)
