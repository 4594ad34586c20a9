-- ===== src/Postgres/Fixture.antt =====
-- A server and a database for tests.
use notes_microservices.Prelude.{◌==◌, String, true, false, [], ◌∷◌, if◌then◌else◌}
use notes_microservices.Failure.{PgError}
use notes_microservices.Domain.{Note, User, RefreshToken}
use notes_microservices.Postgres.Store.{Server, Database}

abbrev pub violation : String → String → PgError
violation constraint detail = record {
  code = "23505";
  constraint_name = constraint;
  detail = detail;
  shown = "duplicate key value violates unique constraint";
}

abbrev pub server : Server
server = record {
  new_id = λ n. if n == 0 then "id0" else "id1";
  notes_newest_first = λ ns. ns;
  tokens_newest_first = λ ts. ts;
  email_taken = λ u. violation "users_email_key" "Key (email) already exists.";
  username_taken = λ u. violation "users_username_key" "Key (username) already exists.";
  token_taken = λ t. violation "refresh_tokens_token_key" "Key (token) already exists.";
  commits_anyway = λ db. db.clock == 77;
  no_such_user = λ t. record {
    code = "23503";
    constraint_name = "refresh_tokens_user_id_fkey";
    detail = "Key (user_id) is not present.";
    shown = "insert violates foreign key constraint";
  };
  no_rows_text = "no rows in result set";
  to_lower = λ s. s;
}

abbrev pub bob : User
bob = record {
  created_at = 1;
  updated_at = 1;
  id = "u1";
  email = "bob@mail.com";
  username = "bob";
  password_hash = "h";
}

abbrev pub live_token : RefreshToken
live_token = record {
  expires_at = 100;
  created_at = 2;
  id = "t1";
  user_id = "u1";
  token = "h1";
  is_revoked = false;
}

abbrev pub revoked_token : RefreshToken
revoked_token = record {
  expires_at = 100;
  created_at = 2;
  id = "t2";
  user_id = "u1";
  token = "h2";
  is_revoked = true;
}

abbrev pub bobs_note : Note
bobs_note = record {
  created_at = 3;
  updated_at = 3;
  id = "n1";
  user_id = "u1";
  title = "Milk";
  content = "two";
}

abbrev pub database : Database
database = record {
  users = bob ∷ [];
  tokens = live_token ∷ revoked_token ∷ [];
  notes = bobs_note ∷ [];
  clock = 10;
  serial = 0;
  turns = [];
}

abbrev pub next_token : RefreshToken
next_token = record {
  expires_at = 200;
  created_at = 0;
  id = "";
  user_id = "u1";
  token = "h3";
  is_revoked = false;
}
