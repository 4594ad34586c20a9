-- ===== src/Postgres/Tokens/Once.antt =====
-- A refresh token is exchanged at most once.
use notes_microservices.Prelude.{◌≤◌, ◌≡◌, ◌≢◌, String, Option, some, none, false, arith, sym}
use mathlib.Core.Path.{subst}
use notes_microservices.Failure.{Err}
use notes_microservices.Action.{Action, Result, ok, err, context_of, continue, fail}
use notes_microservices.Domain.{Time, RefreshToken}
use notes_microservices.Postgres.Store.{
  Server, Database, take_turn, unless_fault, statement, scan_one,
}
use notes_microservices.Postgres.Later.{
  Later, Later-statement, Later-within, Later-handle, Later-bind, take_turn-later,
}
use notes_microservices.Postgres.Tokens.{
  consume_rows, consume_error, insert_token, insert_new, replace, exchange, transaction, committed,
  ended, rotate_refresh_token,
}
use notes_microservices.Postgres.Tokens.Spent.{IsSpent, IsSpent-later, take_turn-tokens}
use notes_microservices.Postgres.Tokens.Rotation.{
  exchange-IsSpent, exchange-refused, kept_by_commit,
}

module _ (sv : Server) where
  insert_token-later :
      (t : RefreshToken) (db : Database) → db.clock ≤ (insert_token sv t db).1.clock
  unfolding insert_token
  insert_token-later t db = ground arith

  consume_rows-later :
      (at : Time) (hash : String) (db : Database) → db.clock ≤ (consume_rows sv at hash db).1.clock
  unfolding consume_rows
  consume_rows-later at hash db = omega arith

  Later-insert_new : (new old : RefreshToken) → Later (insert_new sv new old)
  unfolding insert_new
  Later-insert_new new old =
      let row : RefreshToken = record new { user_id = old.user_id; is_revoked = false } in
      Later-bind _ _ (Later-within _ _ (Later-statement _ (insert_token-later row)))
        (λ _. record { at = λ d. omega arith })

  Later-replace : (new old : RefreshToken) → Later (replace sv new old)
  unfolding replace
  Later-replace new old = record {
    at = λ db. let l = (Later-insert_new new old).at db in ground arith;
  }

  Later-exchange :
      (at : Time) (hash : String) (new : RefreshToken) → Later (exchange sv at hash new)
  unfolding exchange scan_one
  Later-exchange at hash new =
      Later-handle (scan_one (consume_rows sv at hash)) (replace sv new)
        (λ e. fail (consume_error "tokens.RotateRefreshToken consume" e))
        (Later-within "scan row" _ (Later-statement _ (consume_rows-later at hash)))
        (Later-replace new) (λ e. record { at = λ d. omega arith })

  committed-later :
      (c : String) (before : Database) (a : RefreshToken) (turn : Option Err × Database)
      → turn.1.clock ≤ (committed sv c before a turn).1.clock
  committed-later c before a (none, db) = omega arith
  committed-later c before a (some e, db) = ground arith

  ended-later :
      (c : String) (before : Database) (p : Result RefreshToken × Database)
      → p.1.clock ≤ (ended sv c before p).1.clock
  ended-later c before (err e, db) = omega arith
  ended-later c before (ok a, db) =
      omega (arith, take_turn-later db.turns db, committed-later c before a (take_turn db.turns db))

  committed-ok :
      (c : String) (before : Database) (a x : RefreshToken) (turn : Option Err × Database)
      → (committed sv c before a turn).0 ≡ ok x
      → (let r : Result RefreshToken = ok a in r ≡ ok x)
  committed-ok c before a x (none, db) done = done
  committed-ok c before a x (some e, db) done = cc

  ended-ok :
      (c : String) (before : Database) (p : Result RefreshToken × Database) (x : RefreshToken)
      → (ended sv c before p).0 ≡ ok x
      → p.0 ≡ ok x
  ended-ok c before (ok a, db) x done = committed-ok c before a x (take_turn db.turns db) done
  ended-ok c before (err e, db) x done = cc

module _ (sv : Server) (hash : String) (new : RefreshToken) where
  abbrev commit_text : String
  commit_text = "tokens.RotateRefreshToken commit"

  -- The rotation once the turn of `BEGIN` has been taken.
  abbrev begun : Option Err → Action Database RefreshToken
  begun fault db =
      let (r, db') = unless_fault fault (λ d. (ok d.clock, d)) db in
      continue (context_of "tokens.RotateRefreshToken begin" r)
        (λ at. transaction sv commit_text (exchange sv at hash new)) db'

  begun-IsSpent :
      (fault : Option Err) (db : Database) (x : RefreshToken)
      → (begun fault db).0 ≡ ok x
      → IsSpent hash (begun fault db).1.clock (begun fault db).1.tokens
  begun-IsSpent (some e) db x done = cc
  begun-IsSpent none db x done =
      let p = exchange sv db.clock hash new db in
      let (r, after) = ended sv commit_text db p in
      IsSpent-later hash db.clock after.clock after.tokens
        (omega
          (arith, (Later-exchange sv db.clock hash new).at db, ended-later sv commit_text db p))
        (kept_by_commit sv hash db.clock commit_text db p x done
          (λ old. exchange-IsSpent sv hash db.clock new old db))

  begun-refused :
      (fault : Option Err) (db : Database) (x : RefreshToken)
      → IsSpent hash db.clock db.tokens
      → (begun fault db).0 ≢ ok x
  begun-refused (some e) db x spent done = cc
  begun-refused none db x spent done =
      exchange-refused sv hash db.clock new x db spent
        (ended-ok sv commit_text db (exchange sv db.clock hash new db) x done)

-- Once a rotation has exchanged a refresh token, no later rotation exchanges it again: whatever faults
-- and delays there were and will be, as long as the tokens are what the first one left and the clock
-- has not gone back.
pub exchanged_once :
    (sv : Server) (hash : String) (new again : RefreshToken) (db later : Database)
    (old x : RefreshToken)
    → (rotate_refresh_token sv hash (some new) db).0 ≡ ok old
    → later.tokens ≡ (rotate_refresh_token sv hash (some new) db).1.tokens
    → (rotate_refresh_token sv hash (some new) db).1.clock ≤ later.clock
    → (rotate_refresh_token sv hash (some again) later).0 ≢ ok x
unfolding rotate_refresh_token statement
exchanged_once sv hash new again db later old x done same_tokens passed =
    let (fault, db') = take_turn db.turns db in
    let (fault', later') = take_turn later.turns later in
    let spent = begun-IsSpent sv hash new fault db' old done in
    let spent_later : IsSpent hash later.clock later.tokens =
      subst (IsSpent hash later.clock) (sym same_tokens)
        (IsSpent-later hash _ later.clock _ passed spent) in
    let spent_then : IsSpent hash later'.clock later'.tokens =
      IsSpent-later hash later.clock later'.clock later'.tokens (take_turn-later later.turns later)
        (subst (IsSpent hash later.clock) (sym (take_turn-tokens later.turns later)) spent_later) in
    begun-refused sv hash again fault' later' x spent_then
