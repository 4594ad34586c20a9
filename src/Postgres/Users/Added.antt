-- ===== src/Postgres/Users/Added.antt =====
-- What `Create` does to the table of users.
use mathlib.Core.Path.{subst}
use notes_microservices.Prelude.{
  ◌≡◌, refl, sym, String, false, Option, none, some, List, [], ◌∷◌, ◌++◌, any, find, arith,
}
use notes_microservices.Failure.{Err, wrap}
use notes_microservices.Action.{Result, ok, err, handle, pure, fail, within, context_of}
use notes_microservices.Domain.{User}
use notes_microservices.Postgres.Store.{
  Server, Database, take_turn, unless_fault, statement, scan_one,
}
use notes_microservices.Postgres.Errors.{map_unique_violation}
use notes_microservices.Postgres.Users.{has_email, insert_user, mapped_or, create}

-- A row that was inserted behind the rows before, none of which has its address.
pub record IsAdded (u row : User) (after : List User) : Type 0 where
  pub before : List User
  pub email : row.email ≡ u.email
  pub username : row.username ≡ u.username
  pub password_hash : row.password_hash ≡ u.password_hash
  pub fresh : find (has_email u.email) before ≡ none
  pub rows : after ≡ before ++ row ∷ []

find_of_any :
    (email : String) (us : List User)
    → any (has_email email) us ≡ false
    → find (has_email email) us ≡ none
find_of_any email [] h = refl
find_of_any email (u ∷ us) h = ground (arith, find_of_any email us)

module _ (sv : Server) where
  insert_user-IsAdded :
      (u row : User) (db : Database)
      → (insert_user sv u db).0 ≡ ok row
      → IsAdded u row (insert_user sv u db).1.users
  unfolding insert_user
  insert_user-IsAdded u row db made = record {
    before = db.users;
    email = ground arith;
    username = ground arith;
    password_hash = ground arith;
    fresh = find_of_any u.email db.users (ground arith);
    rows = ground arith;
  }

  abbrev created : User → Result User → Database → Result User × Database
  created u r db =
      handle r pure (λ e. fail (mapped_or (map_unique_violation sv e) (wrap "users.Create" e))) db

  created-ok :
      (u row : User) (r : Result User) (db : Database)
      → (created u (context_of "scan row" r) db).0 ≡ ok row
      → (r ≡ ok row) × ((created u (context_of "scan row" r) db).1 ≡ db)
  created-ok u row (ok x) db made = (made, refl)
  created-ok u row (err e) db made = ground arith

  created-IsAdded :
      (u row : User) (fault : Option Err) (db : Database)
      → (let (r, db') = within "scan row" (unless_fault fault (insert_user sv u)) db in
          created u r db').0
        ≡ ok row
      → IsAdded u row
          (let (r, db') = within "scan row" (unless_fault fault (insert_user sv u)) db in
            created u r db').1.users
  created-IsAdded u row (some e) db made = ground arith
  created-IsAdded u row none db made =
      let (r, db') = insert_user sv u db in
      let (same, kept) = created-ok u row r db' made in
      subst (λ d. IsAdded u row d.users) (sym kept) (insert_user-IsAdded u row db same)

  pub create-IsAdded :
      (u row : User) (db : Database)
      → (create sv u db).0 ≡ ok row
      → IsAdded u row (create sv u db).1.users
  unfolding create scan_one statement
  create-IsAdded u row db made =
      let (fault, db') = take_turn db.turns db in created-IsAdded u row fault db' made
