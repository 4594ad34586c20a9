-- ===== src/Postgres/Users/Found.antt =====
-- What a look-up of a user returns.
use notes_microservices.Prelude.{
  ◌≡◌, refl, sym, ap, ◌∙◌, String, Bool, Option, none, some, List, [], ◌∷◌, find, find-holds, arith,
  inl, inr, Option-cases, eq_iff, if◌then◌else◌,
}
use notes_microservices.Failure.{Err, sentinel, wrap, no_rows, is_foreign, user_not_found}
use notes_microservices.Action.{Result, ok, err, context_of, handle, pure, fail}
use notes_microservices.Domain.{User}
use notes_microservices.Postgres.Store.{
  Server, Database, Turn, take_turn, unless_fault, found_row, statement, scan_one,
}
use notes_microservices.Postgres.Users.{has_id, find_user, find_by_id}

take_turn-users : (ts : List Turn) (db : Database) → (take_turn ts db).1.users ≡ db.users
unfolding take_turn
take_turn-users [] db = refl
take_turn-users (t ∷ ts) db = refl

module _ (sv : Server) where
  handled-ok :
      (name : String) (r : Result User) (db : Database) (row : User)
      → (handle
          (context_of "scan row" r)
          pure
          (λ e. fail (if is_foreign e no_rows then sentinel user_not_found else wrap name e))
          db).0
        ≡ ok row
      → r ≡ ok row
  handled-ok name (ok x) db row h = h
  handled-ok name (err e) db row h = cc

  found-ok :
      (query : User → Bool) (fault : Option Err) (db : Database) (row : User)
      → (unless_fault fault (λ d. (found_row sv (find query d.users), d)) db).0 ≡ ok row
      → find query db.users ≡ some row
  found-ok query (some e) db row h = cc
  found-ok query none db row h = elim (Option-cases (find query db.users)) [
    | inl missing ↦ ground arith
    | inr (x, there) ↦ ground arith
  ]

  -- It is the first row that the query selects.
  pub find_user-ok :
      (query : User → Bool) (name : String) (db : Database) (row : User)
      → (find_user sv query name db).0 ≡ ok row
      → find query db.users ≡ some row
  unfolding find_user scan_one statement
  find_user-ok query name db row h =
      let (fault, db') = take_turn db.turns db in
      let read = handled-ok name _ _ row h in
      ap (find query) (sym (take_turn-users db.turns db)) ∙ found-ok query fault db' row read

  pub find_by_id-id :
      (id : String) (db : Database) (row : User)
      → (find_by_id sv id db).0 ≡ ok row
      → (find (has_id id) db.users ≡ some row) × (row.id ≡ id)
  unfolding find_by_id
  find_by_id-id id db row h =
      let found = find_user-ok (has_id id) "users.FindByID" db row h in
      let listed = find-holds (has_id id) db.users row found in
      (found, ground (arith, eq_iff row.id id))
