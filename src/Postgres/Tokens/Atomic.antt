-- ===== src/Postgres/Tokens/Atomic.antt =====
-- What a rotation does to the table, by how it ends.
use notes_microservices.Prelude.{
  ◌≡◌, refl, sym, ◌||◌, not, ◌&&◌, str_eq, Bool, ◌∙◌, ◌⊎◌, inl, inr, String, true, false, Option,
  none, some, List, [], ◌∷◌, ◌++◌, find, update, arith, Option-cases, Bool-cases,
}
use mathlib.Core.Path.{subst}
use notes_microservices.Failure.{Err, wrap}
use notes_microservices.Action.{Result, ok, err, context_of, continue, handle, within, fail, pure}
use notes_microservices.Action.Laws.{context_of-eq-ok}
use notes_microservices.Domain.{Time, RefreshToken}
use notes_microservices.Postgres.Store.{
  Server, Database, take_turn, unless_fault, statement, scan_one,
}
use notes_microservices.Postgres.Tokens.{
  is_active, revoked, consume_rows, consume_error, insert_token, insert_new, replace, exchange,
  committed, ended, transaction, rotate_refresh_token,
}
use notes_microservices.Postgres.Tokens.Spent.{take_turn-tokens}

-- One row of `t`, live, was added behind the rows `before`.
pub record IsInserted (t : RefreshToken) (before after : List RefreshToken) : Type 0 where
  pub row : RefreshToken
  pub token : row.token ≡ t.token
  pub user_id : row.user_id ≡ t.user_id
  pub expires_at : row.expires_at ≡ t.expires_at
  pub is_revoked : row.is_revoked ≡ t.is_revoked
  pub rows : after ≡ before ++ row ∷ []

-- The row of a token of its owner, in place of `new`.
abbrev pub for_owner : RefreshToken → RefreshToken → RefreshToken
for_owner new old = record new { user_id = old.user_id; is_revoked = false }

-- `new` names no user, or the owner of the old token.
abbrev pub IsOwned : RefreshToken → RefreshToken → Type 0
IsOwned new old = (str_eq new.user_id "" || str_eq old.user_id new.user_id) ≡ true

abbrev differs : RefreshToken → RefreshToken → Bool
differs new old = not (str_eq new.user_id "") && not (str_eq old.user_id new.user_id)

abbrev refused_text : String
refused_text = "tokens.RotateRefreshToken consume"

-- An active row of `hash` was exchanged at the time `at`: it is revoked, and one live row of the same
-- user stands behind the others, with the token and the expiry of `new`. `old` is what is returned.
pub record IsExchanged (hash : String) (new old : RefreshToken) (before after : List RefreshToken)
    : Type 0 where
  pub at : Time
  pub active : RefreshToken
  pub found : find (is_active at hash) before ≡ some active
  pub is_old : old ≡ revoked active
  pub owner : IsOwned new old
  pub inserted : IsInserted (for_owner new old) (update (is_active at hash) revoked before) after

module _ (sv : Server) where
  insert_token-IsInserted :
      (t : RefreshToken) (fault : Option Err) (db : Database)
      → (unless_fault fault (insert_token sv t) db).0 ≡ ok tt
      → IsInserted t db.tokens (unless_fault fault (insert_token sv t) db).1.tokens
  unfolding insert_token
  insert_token-IsInserted t (some e) db done = cc
  insert_token-IsInserted t none db done = record {
    row = record t { created_at = db.clock; id = sv.new_id db.serial };
    token = refl;
    user_id = refl;
    expires_at = refl;
    is_revoked = refl;
    rows = ground arith;
  }

  statement-IsInserted :
      (t : RefreshToken) (db : Database)
      → (statement (insert_token sv t) db).0 ≡ ok tt
      → IsInserted t db.tokens (statement (insert_token sv t) db).1.tokens
  unfolding statement
  statement-IsInserted t db done =
      let (fault, db') = take_turn db.turns db in
      subst (λ ts. IsInserted t ts (unless_fault fault (insert_token sv t) db').1.tokens)
        (take_turn-tokens db.turns db) (insert_token-IsInserted t fault db' done)

  inserted-continue :
      (old x : RefreshToken) (r : Result (Unit {0})) (db : Database)
      → (continue r (λ _. pure old) db).0 ≡ ok x
      → (r ≡ ok tt) × (old ≡ x) × ((continue r (λ _. pure old) db).1 ≡ db)
  inserted-continue old x (ok u) db done = (refl, ground arith, refl)
  inserted-continue old x (err e) db done = cc

  insert_new-IsInserted :
      (new old x : RefreshToken) (db : Database)
      → (insert_new sv new old db).0 ≡ ok x
      → (old ≡ x) × IsInserted (for_owner new old) db.tokens (insert_new sv new old db).1.tokens
  unfolding insert_new
  insert_new-IsInserted new old x db done =
      let (r, db') =
        within "tokens.RotateRefreshToken insert" (statement (insert_token sv (for_owner new old)))
          db in
      let (given, same, kept) = inserted-continue old x r db' done in
      (
        same,
        subst (λ d. IsInserted (for_owner new old) db.tokens d.tokens) (sym kept)
            (statement-IsInserted (for_owner new old) db
              (context_of-eq-ok "tokens.RotateRefreshToken insert" _ given)),
      )

  replace-IsInserted :
      (new old x : RefreshToken) (db : Database)
      → (replace sv new old db).0 ≡ ok x
      → (old ≡ x)
        × IsOwned new old
        × IsInserted (for_owner new old) db.tokens (replace sv new old db).1.tokens
  unfolding replace
  replace-IsInserted new old x db done = elim (Bool-cases (differs new old)) [
    | inl apart ↦ ground arith
    | inr alike ↦
        (let passed : (insert_new sv new old db).0 ≡ ok x = ground arith in
          let (same, added) = insert_new-IsInserted new old x db passed in
          (same, ground arith, rw alike added))
  ]

  handled-IsExchanged :
      (hash : String) (at : Time) (new x : RefreshToken) (before : List RefreshToken)
      (r : Result RefreshToken) (db : Database)
      → (handle r (replace sv new) (λ e. fail (consume_error refused_text e)) db).0 ≡ ok x
      → ((old : RefreshToken)
          → r ≡ ok old
          → (active : RefreshToken) × (find (is_active at hash) before ≡ some active)
            × (old ≡ revoked active)
            × (db.tokens ≡ update (is_active at hash) revoked before))
      → IsExchanged hash new x before
          (handle r (replace sv new) (λ e. fail (consume_error refused_text e)) db).1.tokens
  handled-IsExchanged hash at new x before (err e) db done known = cc
  handled-IsExchanged hash at new x before (ok old) db done known =
      let (active, found, is_old, consumed) = known old refl in
      let (same, owner, added) = replace-IsInserted new old x db done in
      let after = (replace sv new old db).1.tokens in
      record {
        at = at;
        active = active;
        found = found;
        is_old = sym same ∙ is_old;
        owner = subst (IsOwned new) same owner;
        inserted =
            subst
              (λ o. IsInserted (for_owner new o) (update (is_active at hash) revoked before) after)
              same (subst (λ ts. IsInserted (for_owner new old) ts after) consumed added);
      }

  consumed-known :
      (hash : String) (at : Time) (fault : Option Err) (db : Database) (old : RefreshToken)
      → (unless_fault fault (consume_rows sv at hash) db).0 ≡ ok old
      → (active : RefreshToken) × (find (is_active at hash) db.tokens ≡ some active)
        × (old ≡ revoked active)
        × ((unless_fault fault (consume_rows sv at hash) db).1.tokens
            ≡ update (is_active at hash) revoked db.tokens)
  unfolding consume_rows
  consumed-known hash at (some e) db old done = cc
  consumed-known hash at none db old done =
      elim (Option-cases (find (is_active at hash) db.tokens)) [
        | inl absent ↦ ground arith
        | inr (t, found) ↦ (t, found, ground arith, refl)
      ]

  exchange-IsExchanged :
      (hash : String) (at : Time) (new x : RefreshToken) (db : Database)
      → (exchange sv at hash new db).0 ≡ ok x
      → IsExchanged hash new x db.tokens (exchange sv at hash new db).1.tokens
  unfolding exchange scan_one statement
  exchange-IsExchanged hash at new x db done =
      let (fault, db') = take_turn db.turns db in
      let (r, after) = unless_fault fault (consume_rows sv at hash) db' in
      let all =
        handled-IsExchanged hash at new x db'.tokens (context_of "scan row" r) after done
          (λ old given.
            consumed-known hash at fault db' old (context_of-eq-ok "scan row" r given)) in
      subst (λ ts. IsExchanged hash new x ts (exchange sv at hash new db).1.tokens)
        (take_turn-tokens db.turns db) all

abbrev pub commit_text : String
commit_text = "tokens.RotateRefreshToken commit"

-- How a rotation may end: it returns the old token and the exchange is made; it fails and the table is
-- as it was; or the commit reports an error though the exchange is made.
abbrev pub IsWhole :
    String → RefreshToken → List RefreshToken → Result RefreshToken → List RefreshToken → Type 0
IsWhole hash new before r after =
    ((old : RefreshToken) × (r ≡ ok old) × IsExchanged hash new old before after)
    ⊎ (((e : Err) × (r ≡ err e) × (after ≡ before))
        ⊎ ((e : Err) × (old : RefreshToken) × (r ≡ err (wrap commit_text e))
            × IsExchanged hash new old before after))

module _ (sv : Server) (hash : String) (new : RefreshToken) where
  committed-IsWhole :
      (begin : Database) (old : RefreshToken) (turn : Option Err × Database)
      → IsExchanged hash new old begin.tokens turn.1.tokens
      → let (r, after) = committed sv commit_text begin old turn in
        IsWhole hash new begin.tokens r after.tokens
  committed-IsWhole begin old (none, db) made = inl (old, refl, made)
  committed-IsWhole begin old (some e, db) made = elim (Bool-cases (sv.commits_anyway db)) [
    | inl anyway ↦ (rw anyway (inr (inr (e, old, refl, made))))
    | inr lost ↦ (rw lost (inr (inl (wrap commit_text e, refl, refl))))
  ]

  ended-IsWhole :
      (begin : Database) (p : Result RefreshToken × Database)
      → ((old : RefreshToken) → p.0 ≡ ok old → IsExchanged hash new old begin.tokens p.1.tokens)
      → let (r, after) = ended sv commit_text begin p in
        IsWhole hash new begin.tokens r after.tokens
  ended-IsWhole begin (err e, db) made = inr (inl (e, refl, refl))
  ended-IsWhole begin (ok old, db) made = committed-IsWhole begin old (take_turn db.turns db) (
      subst (IsExchanged hash new old begin.tokens) (sym (take_turn-tokens db.turns db))
        (made old refl))

  begun-IsWhole :
      (fault : Option Err) (db : Database)
      → let (at, db') = unless_fault fault (λ d. (ok d.clock, d)) db in
        let (r, after) =
          continue
            (context_of "tokens.RotateRefreshToken begin" at)
            (λ at. transaction sv commit_text (exchange sv at hash new))
            db' in
        IsWhole hash new db.tokens r after.tokens
  begun-IsWhole (some e) db = inr (inl (_, refl, refl))
  begun-IsWhole none db =
      ended-IsWhole db (exchange sv db.clock hash new db)
        (λ old. exchange-IsExchanged sv hash db.clock new old db)

pub rotate_refresh_token-IsWhole :
    (sv : Server) (hash : String) (new : RefreshToken) (db : Database)
    → let (r, after) = rotate_refresh_token sv hash (some new) db in
      IsWhole hash new db.tokens r after.tokens
unfolding rotate_refresh_token statement
rotate_refresh_token-IsWhole sv hash new db =
    let (fault, db') = take_turn db.turns db in
    let (r, after) = rotate_refresh_token sv hash (some new) db in
    subst (λ ts. IsWhole hash new ts r after.tokens) (take_turn-tokens db.turns db)
      (begun-IsWhole sv hash new fault db')
