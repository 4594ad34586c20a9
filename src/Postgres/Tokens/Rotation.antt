-- ===== src/Postgres/Tokens/Rotation.antt =====
-- What the transaction of a rotation does to the old token.
use mathlib.Core.Path.{subst}
use notes_microservices.Prelude.{
  ◌≡◌, ◌≢◌, refl, String, true, false, Option, none, some, any, find, arith, sym, Option-cases, inl,
  inr,
}
use notes_microservices.Failure.{Err}
use notes_microservices.Action.{Action, Result, ok, err, context_of, continue, handle, within, fail}
use notes_microservices.Action.Laws.{context_of-eq-ok}
use notes_microservices.Domain.{Time, RefreshToken}
use notes_microservices.Postgres.Store.{
  Server, Database, take_turn, unless_fault, statement, scan_one,
}
use notes_microservices.Postgres.Tokens.{
  has_token, is_active, consume_rows, consume_error, insert_token, insert_new, replace, exchange,
  committed, ended,
}
use notes_microservices.Postgres.Tokens.Spent.{
  IsSpent, find-IsSpent, update-IsSpent, any-update, take_turn-tokens, inserted-IsSpent,
}

-- What holds after the first of two actions, and what the second keeps.
module _ {A : Type 0} {B : Type 0} (P : Database → Type 0) where
  continue-holds :
      (r : Result A) (k : A → Action Database B) (db : Database) {b : B}
      → (continue r k db).0 ≡ ok b
      → ((a : A) → r ≡ ok a → P db)
      → ((a : A) (d : Database) → P d → P (k a d).1)
      → P (continue r k db).1
  continue-holds (ok a) k db done first second = second a db (first a refl)
  continue-holds (err e) k db done first second = cc

module _ (sv : Server) (hash : String) where
  inserted-at :
      (at : Time) (new : RefreshToken) (db : Database)
      → (statement (insert_token sv new) db).0 ≡ ok tt
      → any (has_token hash) db.tokens ≡ true
      → IsSpent hash at db.tokens
      → IsSpent hash at (statement (insert_token sv new) db).1.tokens
  unfolding statement
  inserted-at at new db done present spent =
      let (fault, db') = take_turn db.turns db in
      let kept : db'.tokens ≡ db.tokens = take_turn-tokens db.turns db in
      inserted-IsSpent sv hash at new fault db' done
        (subst (λ ts. any (has_token hash) ts ≡ true) (sym kept) present)
        (subst (IsSpent hash at) (sym kept) spent)

  consumed-IsSpent :
      (at : Time) (fault : Option Err) (db : Database) (old : RefreshToken)
      → (unless_fault fault (consume_rows sv at hash) db).0 ≡ ok old
      → (any (has_token hash) (unless_fault fault (consume_rows sv at hash) db).1.tokens ≡ true)
        × IsSpent hash at (unless_fault fault (consume_rows sv at hash) db).1.tokens
  unfolding consume_rows
  consumed-IsSpent at (some e) db old done = cc
  consumed-IsSpent at none db old done = (
    elim (Option-cases (find (is_active at hash) db.tokens)) [
      | inl absent ↦ cc
      | inr (t, found) ↦ any-update hash at db.tokens t found
    ],
    update-IsSpent hash at db.tokens,
  )

  consumed-at :
      (at : Time) (db : Database) (old : RefreshToken)
      → (scan_one (consume_rows sv at hash) db).0 ≡ ok old
      → (any (has_token hash) (scan_one (consume_rows sv at hash) db).1.tokens ≡ true)
        × IsSpent hash at (scan_one (consume_rows sv at hash) db).1.tokens
  unfolding scan_one
  consumed-at at db old done =
      let (fault, db') = take_turn db.turns db in
      consumed-IsSpent at fault db' old (context_of-eq-ok "scan row" _ done)

  insert_new-IsSpent :
      (at : Time) (new old x : RefreshToken) (db : Database)
      → (insert_new sv new old db).0 ≡ ok x
      → any (has_token hash) db.tokens ≡ true
      → IsSpent hash at db.tokens
      → IsSpent hash at (insert_new sv new old db).1.tokens
  unfolding insert_new
  insert_new-IsSpent at new old x db done present spent =
      let row : RefreshToken = record new { user_id = old.user_id; is_revoked = false } in
      let (r, db') =
        within "tokens.RotateRefreshToken insert" (statement (insert_token sv row)) db in
      continue-holds (λ d. IsSpent hash at d.tokens) r _ db' done
        (λ _ inserted.
          inserted-at at row db (context_of-eq-ok "tokens.RotateRefreshToken insert" _ inserted)
            present spent)
        (λ _ d kept. kept)

  replace-IsSpent :
      (at : Time) (new old x : RefreshToken) (db : Database)
      → (replace sv new old db).0 ≡ ok x
      → any (has_token hash) db.tokens ≡ true
      → IsSpent hash at db.tokens
      → IsSpent hash at (replace sv new old db).1.tokens
  unfolding replace
  replace-IsSpent at new old x db done present spent =
      ground (arith, insert_new-IsSpent at new old x db)

  handled-IsSpent :
      (at : Time) (new x : RefreshToken) (r : Result RefreshToken) (db : Database)
      → (handle r
          (replace sv new)
          (λ e. fail (consume_error "tokens.RotateRefreshToken consume" e))
          db).0
        ≡ ok x
      → ((old : RefreshToken)
          → r ≡ ok old
          → (any (has_token hash) db.tokens ≡ true) × IsSpent hash at db.tokens)
      → IsSpent hash at
          (handle r
            (replace sv new)
            (λ e. fail (consume_error "tokens.RotateRefreshToken consume" e))
            db).1.tokens
  handled-IsSpent at new x (err e) db done known = cc
  handled-IsSpent at new x (ok old) db done known =
      let (present, spent) = known old refl in replace-IsSpent at new old x db done present spent

  pub exchange-IsSpent :
      (at : Time) (new x : RefreshToken) (db : Database)
      → (exchange sv at hash new db).0 ≡ ok x
      → IsSpent hash at (exchange sv at hash new db).1.tokens
  unfolding exchange
  exchange-IsSpent at new x db done =
      let (r, db') = scan_one (consume_rows sv at hash) db in
      handled-IsSpent at new x r db' done (λ old h. consumed-at at db old h)

  kept-committed :
      (at : Time) (c : String) (before : Database) (a x : RefreshToken)
      (turn : Option Err × Database)
      → (committed sv c before a turn).0 ≡ ok x
      → IsSpent hash at turn.1.tokens
      → IsSpent hash at (committed sv c before a turn).1.tokens
  kept-committed at c before a x (none, db) done spent = spent
  kept-committed at c before a x (some e, db) done spent = cc

  pub kept_by_commit :
      (at : Time) (c : String) (before : Database) (p : Result RefreshToken × Database)
      (x : RefreshToken)
      → (ended sv c before p).0 ≡ ok x
      → ((old : RefreshToken) → p.0 ≡ ok old → IsSpent hash at p.1.tokens)
      → IsSpent hash at (ended sv c before p).1.tokens
  kept_by_commit at c before (ok a, db) x done spent =
      kept-committed at c before a x (take_turn db.turns db) done
        (subst (IsSpent hash at) (sym (take_turn-tokens db.turns db)) (spent a refl))
  kept_by_commit at c before (err e, db) x done spent = cc

  refused-unless_fault :
      (at : Time) (fault : Option Err) (db : Database) (x : RefreshToken)
      → IsSpent hash at db.tokens
      → (unless_fault fault (consume_rows sv at hash) db).0 ≢ ok x
  unfolding consume_rows
  refused-unless_fault at (some e) db x spent done = cc
  refused-unless_fault at none db x spent done =
      let absent = find-IsSpent hash at db.tokens spent in ground arith

  refused-handle :
      (at : Time) (new x : RefreshToken) (p : Result RefreshToken × Database)
      → ((old : RefreshToken) → p.0 ≢ ok old)
      → (handle
          (context_of "scan row" p.0)
          (replace sv new)
          (λ e. fail (consume_error "tokens.RotateRefreshToken consume" e))
          p.1).0
        ≢ ok x
  refused-handle at new x (err e, db) refused done = cc
  refused-handle at new x (ok old, db) refused done = refused old refl

  -- A spent token is not exchanged, faults or not.
  pub exchange-refused :
      (at : Time) (new x : RefreshToken) (db : Database)
      → IsSpent hash at db.tokens
      → (exchange sv at hash new db).0 ≢ ok x
  unfolding exchange scan_one
  exchange-refused at new x db spent done =
      let (fault, db') = take_turn db.turns db in
      let kept : db'.tokens ≡ db.tokens = take_turn-tokens db.turns db in
      let refused = refused-unless_fault at fault db' in
      let spent' : IsSpent hash at db'.tokens = subst (IsSpent hash at) (sym kept) spent in
      refused-handle at new x (unless_fault fault (consume_rows sv at hash) db')
        (λ old h. refused old spent' h) done
