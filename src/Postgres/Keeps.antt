-- ===== src/Postgres/Keeps.antt =====
-- What actions on the database leave as it was: one rule for each way to build an action.
use notes_microservices.Prelude.{ℕ, ◌+◌, String, ◌≡◌, refl, ◌∙◌, Option, none, some, List, [], ◌∷◌}
use notes_microservices.Failure.{Err}
use notes_microservices.Action.{
  Action, Result, ok, err, pure, fail, lift, within, handle, ◌>>=◌, continue,
}
use notes_microservices.Postgres.Store.{
  Database, Turn, take_turn, unless_fault, statement, scan_one,
}

-- A part of the database that the clock and the script of the environment do not enter.
pub record IsView {ℓ} {B : Type ℓ} (view : Database → B) : Type ℓ where
  pub at :
      (db : Database) (c : ℕ) (ts : List Turn)
      → view (record db { clock = c; turns = ts }) ≡ view db

pub view-take_turn {ℓ} :
    {B : Type ℓ} {view : Database → B}
    → IsView view
    → (ts : List Turn) (db : Database) → view (take_turn ts db).1 ≡ view db
unfolding take_turn
view-take_turn v [] db = refl
view-take_turn v (t ∷ ts) db = v.at db (db.clock + t.elapsed) ts

-- `m` leaves `view` as it was, whether it returns or fails.
pub record Keeps {ℓ κ} {B : Type ℓ} {A : Type κ} (view : Database → B) (m : Action Database A)
    : Type ℓ where
  pub at : (db : Database) → view (m db).1 ≡ view db

module _ {ℓ κ} {B : Type ℓ} {A : Type κ} {view : Database → B} where
  pub Keeps-pure : (a : A) → Keeps view (pure a)
  Keeps-pure a = record { at = λ db. refl }

  pub Keeps-fail : (e : Err) → Keeps view (fail {A = A} e)
  Keeps-fail e = record { at = λ db. refl }

  pub Keeps-lift : (r : Result A) → Keeps view (lift r)
  Keeps-lift r = record { at = λ db. refl }

  pub Keeps-within : (c : String) (m : Action Database A) → Keeps view m → Keeps view (within c m)
  Keeps-within c m k = record { at = λ db. k.at db }

  view-unless_fault :
      (fault : Option Err) (effect : Database → Result A × Database)
      → ((db : Database) → view (effect db).1 ≡ view db)
      → (db : Database) → view (unless_fault fault effect db).1 ≡ view db
  view-unless_fault none effect k db = k db
  view-unless_fault (some e) effect k db = refl

  pub Keeps-statement :
      (effect : Database → Result A × Database)
      → IsView view
      → ((db : Database) → view (effect db).1 ≡ view db)
      → Keeps view (statement effect)
  unfolding statement
  Keeps-statement effect v k = record {
    at = λ db.
        let (fault, db') = take_turn db.turns db in
        view-unless_fault fault effect k db' ∙ view-take_turn v db.turns db;
  }

  pub Keeps-scan_one :
      (effect : Database → Result A × Database)
      → IsView view
      → ((db : Database) → view (effect db).1 ≡ view db)
      → Keeps view (scan_one effect)
  unfolding scan_one
  Keeps-scan_one effect v k =
      Keeps-within "scan row" (statement effect) (Keeps-statement effect v k)

module _ {ℓ κ μ} {B : Type ℓ} {A : Type κ} {C : Type μ} {view : Database → B} where
  view-continue :
      (r : Result A) (f : A → Action Database C)
      → ((a : A) → Keeps view (f a))
      → (db : Database) → view (continue r f db).1 ≡ view db
  view-continue (ok a) f k db = (k a).at db
  view-continue (err e) f k db = refl

  pub Keeps-bind :
      (m : Action Database A) (f : A → Action Database C)
      → Keeps view m
      → ((a : A) → Keeps view (f a))
      → Keeps view (m >>= f)
  Keeps-bind m f k l = record {
    at = λ db. let (r, db') = m db in view-continue r f l db' ∙ k.at db;
  }

  view-continue_result :
      (r : Result A) (f : A → Action Database C)
      → ((a : A) → r ≡ ok a → Keeps view (f a))
      → (db : Database) → view (continue r f db).1 ≡ view db
  view-continue_result (ok a) f k db = (k a refl).at db
  view-continue_result (err e) f k db = refl

  -- What follows may use what is known of the value that the first action returned.
  pub Keeps-bind_result :
      (m : Action Database A) (f : A → Action Database C)
      → Keeps view m
      → ((db : Database) (a : A) → (m db).0 ≡ ok a → Keeps view (f a))
      → Keeps view (m >>= f)
  Keeps-bind_result m f k l = record {
    at = λ db. let (r, db') = m db in view-continue_result r f (l db) db' ∙ k.at db;
  }

  view-handle :
      (r : Result A) (f : A → Action Database C) (g : Err → Action Database C)
      → ((a : A) → Keeps view (f a))
      → ((e : Err) → Keeps view (g e))
      → (db : Database) → view (handle r f g db).1 ≡ view db
  view-handle (ok a) f g k l db = (k a).at db
  view-handle (err e) f g k l db = (l e).at db

  pub Keeps-handle :
      (m : Action Database A) (f : A → Action Database C) (g : Err → Action Database C)
      → Keeps view m
      → ((a : A) → Keeps view (f a))
      → ((e : Err) → Keeps view (g e))
      → Keeps view (λ db. let (r, db') = m db in handle r f g db')
  Keeps-handle m f g k l lg = record {
    at = λ db. let (r, db') = m db in view-handle r f g l lg db' ∙ k.at db;
  }

module _ {ℓ} {B : Type ℓ} (view : Database → B) where
  read-unless_fault :
      (fault : Option Err) (db : Database) {b : B}
      → (unless_fault fault (λ d. (ok (view d), d)) db).0 ≡ ok b
      → b ≡ view db
  read-unless_fault none db h = cc
  read-unless_fault (some e) db h = cc

  -- A statement that reads returns what stands in the tables before it.
  pub statement-read :
      IsView view
      → (db : Database) {b : B} → (statement (λ d. (ok (view d), d)) db).0 ≡ ok b
      → b ≡ view db
  unfolding statement
  statement-read v db h =
      let (fault, db') = take_turn db.turns db in
      read-unless_fault fault db' h ∙ view-take_turn v db.turns db
