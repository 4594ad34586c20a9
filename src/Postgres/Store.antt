-- ===== src/Postgres/Store.antt =====
-- The databases as the statements see them: the tables of migrations/auth and migrations/notes, and
-- what the server and the network do around a statement. The text of a query is in the source, and
-- its meaning on the tables is written out beside each repository method.
use notes_microservices.Prelude.{ℕ, ◌+◌, String, Bool, Option, none, some, List, [], ◌∷◌}
use notes_microservices.Failure.{Err, PgError, foreign, no_rows}
use notes_microservices.Action.{Action, Result, ok, err, within}
use notes_microservices.Domain.{Time, Note, User, RefreshToken}

-- What comes before the next statement takes effect: time passes, and the driver may report an error
-- in place of it. A failed statement is taken to leave the tables alone; for COMMIT see Tokens.
pub record Turn : Type 0 where
  pub elapsed : ℕ
  pub fault : Option Err

-- `serial` counts the ids given out. A script that is used up means no time and no faults.
pub record Database : Type 0 where
  pub users : List User
  pub tokens : List RefreshToken
  pub notes : List Note
  pub clock : Time
  pub serial : ℕ
  pub turns : List Turn

abbrev pub now : Database → Time
now db = db.clock

-- What the program takes from the server: `uuid_generate_v4()` for the n-th id, the order in which
-- rows come that a query sorts (rows with equal keys come in some order), the errors of violated
-- constraints, the text of `pgx.ErrNoRows`, and whether a COMMIT that reports an error took effect all
-- the same, by what is so at that moment. `to_lower` is `strings.ToLower`.
pub record Server : Type 0 where
  pub new_id : ℕ → String
  pub notes_newest_first : List Note → List Note
  pub tokens_newest_first : List RefreshToken → List RefreshToken
  pub email_taken : User → PgError
  pub username_taken : User → PgError
  pub token_taken : RefreshToken → PgError
  pub no_such_user : RefreshToken → PgError
  pub no_rows_text : String
  pub commits_anyway : Database → Bool
  pub to_lower : String → String

unfoldable pub take_turn : List Turn → Database → Option Err × Database
take_turn [] db = (none, db)
take_turn (t ∷ ts) db = (t.fault, record db { clock = db.clock + t.elapsed; turns = ts })

abbrev pub unless_fault {ℓ} :
    {A : Type ℓ} → Option Err → (Database → Result A × Database) → Action Database A
unless_fault (some e) effect db = (err e, db)
unless_fault none effect db = effect db

-- One statement: the fault of its turn, or its effect.
unfoldable pub statement {ℓ} : {A : Type ℓ} → (Database → Result A × Database) → Action Database A
unfolding take_turn
statement effect db = let (fault, db') = take_turn db.turns db in unless_fault fault effect db'

-- The row of a query that found one, or none.
abbrev pub found_row {ℓ} : {A : Type ℓ} → Server → Option A → Result A
found_row sv (some row) = ok row
found_row sv none = err (foreign no_rows sv.no_rows_text)

-- `scanOne` of a `QueryRow`: an error of the statement shows when the row is scanned.
unfoldable pub scan_one {ℓ} : {A : Type ℓ} → (Database → Result A × Database) → Action Database A
unfolding statement
scan_one effect = within "scan row" (statement effect)

-- A query of one row by a test on the rows of a table.
abbrev pub select_one {ℓ} : {A : Type ℓ} → Server → (Database → Option A) → Action Database A
select_one sv query = scan_one (λ db. (found_row sv (query db), db))
