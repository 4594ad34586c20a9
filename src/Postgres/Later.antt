-- ===== src/Postgres/Later.antt =====
-- Time passes while actions run: one rule for each way to build an action.
use notes_microservices.Prelude.{◌≤◌, String, Option, none, some, List, [], ◌∷◌, arith}
use notes_microservices.Failure.{Err}
use notes_microservices.Action.{Action, Result, ok, err, within, continue, handle, ◌>>=◌}
use notes_microservices.Postgres.Store.{Database, Turn, take_turn, unless_fault, statement}

pub take_turn-later : (ts : List Turn) (db : Database) → db.clock ≤ (take_turn ts db).1.clock
unfolding take_turn
take_turn-later [] db = omega arith
take_turn-later (t ∷ ts) db = omega arith

pub record Later {ℓ} {A : Type ℓ} (m : Action Database A) : Type ℓ where
  pub at : (db : Database) → db.clock ≤ (m db).1.clock

module _ {ℓ} {A : Type ℓ} where
  unless_fault-clock :
      (fault : Option Err) (effect : Database → Result A × Database)
      → ((db : Database) → db.clock ≤ (effect db).1.clock)
      → (db : Database) → db.clock ≤ (unless_fault fault effect db).1.clock
  unless_fault-clock none effect k db = k db
  unless_fault-clock (some e) effect k db = omega arith

  pub Later-statement :
      (effect : Database → Result A × Database)
      → ((db : Database) → db.clock ≤ (effect db).1.clock)
      → Later (statement effect)
  unfolding statement
  Later-statement effect k = record {
    at = λ db.
        let (fault, db') = take_turn db.turns db in
        omega (arith, unless_fault-clock fault effect k db', take_turn-later db.turns db);
  }

  pub Later-within : (c : String) (m : Action Database A) → Later m → Later (within c m)
  Later-within c m k = record { at = λ db. k.at db }

module _ {ℓ κ} {A : Type ℓ} {B : Type κ} where
  handle-clock :
      (r : Result A) (f : A → Action Database B) (g : Err → Action Database B)
      → ((a : A) → Later (f a))
      → ((e : Err) → Later (g e))
      → (db : Database) → db.clock ≤ (handle r f g db).1.clock
  handle-clock (ok a) f g k l db = (k a).at db
  handle-clock (err e) f g k l db = (l e).at db

  pub Later-handle :
      (m : Action Database A) (f : A → Action Database B) (g : Err → Action Database B)
      → Later m
      → ((a : A) → Later (f a))
      → ((e : Err) → Later (g e))
      → Later (λ db. let (r, db') = m db in handle r f g db')
  Later-handle m f g j k l = record {
    at = λ db. let (r, db') = m db in omega (arith, handle-clock r f g k l db', j.at db);
  }

  continue-clock :
      (r : Result A) (f : A → Action Database B)
      → ((a : A) → Later (f a))
      → (db : Database) → db.clock ≤ (continue r f db).1.clock
  continue-clock (ok a) f k db = (k a).at db
  continue-clock (err e) f k db = omega arith

  pub Later-bind :
      (m : Action Database A) (f : A → Action Database B)
      → Later m
      → ((a : A) → Later (f a))
      → Later (m >>= f)
  Later-bind m f j k = record {
    at = λ db. let (r, db') = m db in omega (arith, continue-clock r f k db', j.at db);
  }
