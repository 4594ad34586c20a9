-- ===== src/Postgres/Stays.antt =====
-- Properties of the tables of users and tokens that actions keep: one rule for each way to build an
-- action.
use notes_microservices.Prelude.{◌+◌, String, Option, none, some, List, [], ◌∷◌}
use notes_microservices.Failure.{Err}
use notes_microservices.Action.{
  Action, Result, ok, err, pure, fail, lift, within, handle, ◌>>=◌, continue,
}
use notes_microservices.Domain.{User, RefreshToken}
use notes_microservices.Postgres.Store.{
  Database, Turn, take_turn, unless_fault, statement, scan_one,
}

-- `m` leaves tables that have the property with the property, whether it returns or fails.
pub record Stays {κ} {A : Type κ} (I : List User → List RefreshToken → Type 0)
    (m : Action Database A) : Type 0 where
  pub at : (db : Database) → I db.users db.tokens → I (m db).1.users (m db).1.tokens

module _ {κ} {A : Type κ} (I : List User → List RefreshToken → Type 0) where
  stays-fault :
      (fault : Option Err) (effect : Database → Result A × Database)
      → ((db : Database) → I db.users db.tokens → I (effect db).1.users (effect db).1.tokens)
      → (db : Database) → I db.users db.tokens
      → I (unless_fault fault effect db).1.users (unless_fault fault effect db).1.tokens
  stays-fault none effect k db h = k db h
  stays-fault (some e) effect k db h = h

  stays-unless_fault :
      (ts : List Turn) (effect : Database → Result A × Database)
      → ((db : Database) → I db.users db.tokens → I (effect db).1.users (effect db).1.tokens)
      → (db : Database) → I db.users db.tokens
      → let (fault, db') = take_turn ts db in
        let after = (unless_fault fault effect db').1 in I after.users after.tokens
  unfolding take_turn
  stays-unless_fault [] effect k db h = k db h
  stays-unless_fault (t ∷ ts) effect k db h =
      stays-fault t.fault effect k (record db { clock = db.clock + t.elapsed; turns = ts }) h

module _ {κ} {A : Type κ} {I : List User → List RefreshToken → Type 0} where
  pub Stays-pure : (a : A) → Stays I (pure a)
  Stays-pure a = record { at = λ db h. h }

  pub Stays-fail : (e : Err) → Stays I (fail {A = A} e)
  Stays-fail e = record { at = λ db h. h }

  pub Stays-lift : (r : Result A) → Stays I (lift r)
  Stays-lift r = record { at = λ db h. h }

  pub Stays-within : (c : String) (m : Action Database A) → Stays I m → Stays I (within c m)
  Stays-within c m k = record { at = λ db h. k.at db h }

  pub Stays-statement :
      (effect : Database → Result A × Database)
      → ((db : Database) → I db.users db.tokens → I (effect db).1.users (effect db).1.tokens)
      → Stays I (statement effect)
  unfolding statement
  Stays-statement effect k = record { at = λ db h. stays-unless_fault I db.turns effect k db h }

  pub Stays-scan_one :
      (effect : Database → Result A × Database)
      → ((db : Database) → I db.users db.tokens → I (effect db).1.users (effect db).1.tokens)
      → Stays I (scan_one effect)
  unfolding scan_one
  Stays-scan_one effect k = Stays-within "scan row" (statement effect) (Stays-statement effect k)

module _ {κ μ} {A : Type κ} {C : Type μ} {I : List User → List RefreshToken → Type 0} where
  stays-continue :
      (r : Result A) (f : A → Action Database C)
      → ((a : A) → Stays I (f a))
      → (db : Database) → I db.users db.tokens
      → I (continue r f db).1.users (continue r f db).1.tokens
  stays-continue (ok a) f k db h = (k a).at db h
  stays-continue (err e) f k db h = h

  pub Stays-bind :
      (m : Action Database A) (f : A → Action Database C)
      → Stays I m
      → ((a : A) → Stays I (f a))
      → Stays I (m >>= f)
  Stays-bind m f k l = record {
    at = λ db h. let (r, db') = m db in stays-continue r f l db' (k.at db h);
  }

  stays-handle :
      (r : Result A) (f : A → Action Database C) (g : Err → Action Database C)
      → ((a : A) → Stays I (f a))
      → ((e : Err) → Stays I (g e))
      → (db : Database) → I db.users db.tokens
      → I (handle r f g db).1.users (handle r f g db).1.tokens
  stays-handle (ok a) f g k l db h = (k a).at db h
  stays-handle (err e) f g k l db h = (l e).at db h

  pub Stays-handle :
      (m : Action Database A) (f : A → Action Database C) (g : Err → Action Database C)
      → Stays I m
      → ((a : A) → Stays I (f a))
      → ((e : Err) → Stays I (g e))
      → Stays I (λ db. let (r, db') = m db in handle r f g db')
  Stays-handle m f g k l lg = record {
    at = λ db h. let (r, db') = m db in stays-handle r f g l lg db' (k.at db h);
  }

  -- One step of a chain.
  pub Stays-step :
      (c : String) (m : Action Database A) (f : A → Action Database C)
      → Stays I m
      → ((a : A) → Stays I (f a))
      → Stays I (within c m >>= f)
  Stays-step c m f k l = Stays-bind (within c m) f (Stays-within c m k) l
