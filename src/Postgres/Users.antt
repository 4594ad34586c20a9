-- ===== src/Postgres/Users.antt =====
-- `UserRepository` of internal/adapters/postgres/auth.go and the `users` table.
pub mod Added
pub mod Found
pub mod Taken
use notes_microservices.Prelude.{
  ℕ, suc, String, Bool, List, Option, none, some, ◌++◌, [], ◌∷◌, str_eq, any, select, count, find,
  update, not, if◌then◌else◌,
}
use notes_microservices.Failure.{
  Err, PgError, sentinel, pg, foreign, wrap, no_rows, is_foreign, user_not_found,
}
use notes_microservices.Action.{Action, Result, ok, err, pure, fail, within, handle, ◌>>=◌}
use notes_microservices.Domain.{Time, User}
use notes_microservices.Ports.{UserRepository}
use notes_microservices.Postgres.Store.{Server, Database, statement, scan_one, select_one}
use notes_microservices.Postgres.Errors.{map_unique_violation}
use notes_microservices.Postgres.Notes.{require_rows}

-- The columns that the queries compare.
abbrev pub has_id : String → User → Bool
has_id idn u = str_eq u.id idn

abbrev pub has_email : String → User → Bool
has_email email u = str_eq u.email email

abbrev pub has_username : String → User → Bool
has_username username u = str_eq u.username username

-- `if mapped := mapUniqueViolation(err); mapped != nil`
abbrev mapped_or : Option Err → Err → Err
mapped_or (some mapped) e = mapped
mapped_or none e = e

-- The UNIQUE columns of the table `users`: the error for a row `u` beside the rows `us`.
abbrev pub user_violation : Server → User → List User → Option PgError
user_violation sv u us =
    if any (has_email u.email) us
    then some (sv.email_taken u)
    else if any (has_username u.username) us
    then some (sv.username_taken u)
    else none

-- What a statement comes to unless it violates a constraint.
abbrev pub unless_violated {ℓ} :
    {A : Type ℓ} → Option PgError → Result A × Database → Database → Result A × Database
unless_violated (some p) done db = (err (pg p), db)
unless_violated none done db = done

module _ (sv : Server) where
  unfoldable pub find_user : (User → Bool) → String → Action Database User
  find_user query log_method db =
      let (row, db') = select_one sv (λ d. find query d.users) db in
      handle row pure
        (λ e. fail (if is_foreign e no_rows then sentinel user_not_found else wrap log_method e))
        db'

  unfoldable pub find_by_id : String → Action Database User
  find_by_id idn = find_user (has_id idn) "users.FindByID"

  unfoldable pub find_by_email : String → Action Database User
  find_by_email email = find_user (has_email email) "users.FindByEmail"

  -- INSERT INTO users (email, username, password_hash) VALUES ($1, $2, $3) RETURNING …
  unfoldable pub insert_user : User → Database → Result User × Database
  insert_user u db =
      let row : User = record {
        created_at = db.clock;
        updated_at = db.clock;
        id = sv.new_id db.serial;
        email = u.email;
        username = u.username;
        password_hash = u.password_hash;
      } in
      unless_violated (user_violation sv u db.users)
        (ok row, record db { users = db.users ++ row ∷ []; serial = suc db.serial }) db

  unfoldable pub create : User → Action Database User
  unfolding insert_user
  create u db =
      let (row, db') = scan_one (insert_user u) db in
      handle row pure (λ e. fail (mapped_or (map_unique_violation sv e) (wrap "users.Create" e)))
        db'

  -- UPDATE users SET email = $2, username = $3, password_hash = $4, updated_at = $5 WHERE id = $1
  -- RETURNING …
  abbrev set_columns : User → Time → User → User
  set_columns u at row = record row {
    email = u.email;
    username = u.username;
    password_hash = u.password_hash;
    updated_at = at;
  }

  set_row : User → Time → Option User → Database → Result User × Database
  set_row u at none db = (err (foreign no_rows sv.no_rows_text), db)
  set_row u at (some row) db =
      unless_violated (user_violation sv u (select (λ r. not (has_id u.id r)) db.users))
        (
          ok (set_columns u at row),
          record db { users = update (has_id u.id) (set_columns u at) db.users },
        )
        db

  unfoldable pub update_user : User → Action Database User
  unfolding set_row
  update_user u db =
      let (row, db') = scan_one (λ d. set_row u db.clock (find (has_id u.id) d.users) d) db in
      handle row pure
        (λ e. fail (
          if is_foreign e no_rows
          then sentinel user_not_found
          else mapped_or (map_unique_violation sv e) (wrap "users.Update" e)))
        db'

  -- DELETE FROM users WHERE id = $1, and the tokens of the user by the foreign key's cascade
  delete_user_rows : String → Database → Result ℕ × Database
  delete_user_rows idn db = (
    ok (count (has_id idn) db.users),
    record db {
      users = select (λ u. not (has_id idn u)) db.users;
      tokens = select (λ t. not (str_eq t.user_id idn)) db.tokens;
    },
  )

  unfoldable pub delete_user : String → Action Database (Unit {0})
  unfolding delete_user_rows
  delete_user idn = do
    affected ← within "users.Delete" (statement (delete_user_rows idn))
    require_rows sv user_not_found affected

  abbrev pub user_repository : UserRepository Database
  user_repository = record {
    create = create;
    find_by_id = find_by_id;
    find_by_email = find_by_email;
    update = update_user;
    delete = delete_user;
  }
