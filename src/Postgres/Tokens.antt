-- ===== src/Postgres/Tokens.antt =====
-- `TokenRepository` of internal/adapters/postgres/auth.go and the `refresh_tokens` table. Tokens are
-- stored as hashes. `NOW()` is the time at which the transaction of a statement began.
pub mod Spent
pub mod Rotation
pub mod Once
pub mod Atomic
use notes_microservices.Prelude.{
  ℕ, zero, suc, String, Bool, true, false, ◌&&◌, ◌||◌, Option, none, some, List, ◌++◌, [], ◌∷◌,
  str_eq, any, select, count, find, update, not, ltb, if◌then◌else◌,
}
use notes_microservices.Failure.{
  Err, PgError, sentinel, pg, foreign, wrap, no_rows, is_foreign, invalid_refresh_token,
  invalid_params,
}
use notes_microservices.Action.{Action, Result, ok, err, pure, fail, within, handle, ◌>>=◌, ◌>>◌}
use notes_microservices.Domain.{Time, User, RefreshToken}
use notes_microservices.Ports.{TokenRepository}
use notes_microservices.Postgres.Rows.{read_rows}
use notes_microservices.Postgres.Store.{
  Server, Database, take_turn, statement, scan_one, select_one, found_row,
}
use notes_microservices.Postgres.Notes.{require_rows}
use notes_microservices.Postgres.Users.{unless_violated}

-- The `WHERE` clauses.
abbrev pub has_token : String → RefreshToken → Bool
has_token hash t = str_eq t.token hash

abbrev pub of_user : String → RefreshToken → Bool
of_user user_id t = str_eq t.user_id user_id

abbrev pub is_active : Time → String → RefreshToken → Bool
is_active at hash t = has_token hash t && (not t.is_revoked && ltb at t.expires_at)

-- SET is_revoked = true
abbrev pub revoked : RefreshToken → RefreshToken
revoked t = record t { is_revoked = true }

abbrev pub consumed : Option RefreshToken → Option RefreshToken
consumed none = none
consumed (some t) = some (revoked t)

abbrev pub consume_error : String → Err → Err
consume_error context e =
    if is_foreign e no_rows then sentinel invalid_refresh_token else wrap context e

-- The tables as they were before a transaction.
abbrev pub rolled_back : Database → Database → Database
rolled_back before db = record db {
  users = before.users;
  tokens = before.tokens;
  notes = before.notes;
}

-- The UNIQUE column and the foreign key of the table `refresh_tokens`: the error for a row `t`.
abbrev pub token_violation : Server → RefreshToken → List User → List RefreshToken → Option PgError
token_violation sv t us ts =
    if any (has_token t.token) ts
    then some (sv.token_taken t)
    else if not (any (λ u. str_eq u.id t.user_id) us)
    then some (sv.no_such_user t)
    else none

module _ (sv : Server) where
  -- COMMIT, which may be delayed and may report an error: then the server says whether the transaction
  -- took effect.
  abbrev pub committed {ℓ} :
      {A : Type ℓ} → String → Database → A → Option Err × Database → Result A × Database
  committed context before a (none, db) = (ok a, db)
  committed context before a (some e, db) =
      (err (wrap context e), if sv.commits_anyway db then db else rolled_back before db)

  -- The deferred Rollback where the body fails, and else the commit.
  abbrev pub ended {ℓ} :
      {A : Type ℓ} → String → Database → Result A × Database → Result A × Database
  ended context before (err e, db) = (err e, rolled_back before db)
  ended context before (ok a, db) = committed context before a (take_turn db.turns db)

  abbrev pub transaction {ℓ} : {A : Type ℓ} → String → Action Database A → Action Database A
  transaction context body db = ended context db (body db)

  unfoldable pub find_by_token : String → Action Database RefreshToken
  find_by_token hash db =
      let (row, db') = select_one sv (λ d. find (has_token hash) d.tokens) db in
      handle row pure (λ e. fail (consume_error "tokens.FindByToken" e)) db'

  -- INSERT INTO refresh_tokens (user_id, token, expires_at, is_revoked) VALUES ($1, $2, $3, $4)
  unfoldable pub insert_token : RefreshToken → Database → Result (Unit {0}) × Database
  insert_token t db =
      let row : RefreshToken = record {
        expires_at = t.expires_at;
        created_at = db.clock;
        id = sv.new_id db.serial;
        user_id = t.user_id;
        token = t.token;
        is_revoked = t.is_revoked;
      } in
      unless_violated (token_violation sv t db.users db.tokens)
        (ok tt, record db { tokens = db.tokens ++ row ∷ []; serial = suc db.serial }) db

  unfoldable pub store_refresh_token : RefreshToken → Action Database (Unit {0})
  unfolding insert_token
  store_refresh_token t = within "tokens.StoreRefreshToken" (statement (insert_token t))

  -- UPDATE refresh_tokens SET is_revoked = true WHERE token = $1
  unfoldable pub revoke_rows : String → Database → Result ℕ × Database
  revoke_rows hash db = (
    ok (count (has_token hash) db.tokens),
    record db { tokens = update (has_token hash) revoked db.tokens },
  )

  unfoldable pub revoke_token : String → Action Database (Unit {0})
  unfolding revoke_rows
  revoke_token hash = do
    affected ← within "tokens.RevokeToken" (statement (revoke_rows hash))
    require_rows sv invalid_refresh_token affected

  -- UPDATE refresh_tokens SET is_revoked = true
  -- WHERE token = $1 AND is_revoked = false AND expires_at > NOW() RETURNING …
  unfoldable pub consume_rows : Time → String → Database → Result RefreshToken × Database
  consume_rows at hash db = (
    found_row sv (consumed (find (is_active at hash) db.tokens)),
    record db { tokens = update (is_active at hash) revoked db.tokens },
  )

  unfoldable pub consume_active_token : String → Action Database RefreshToken
  unfolding consume_rows
  consume_active_token hash db =
      let (row, db') = scan_one (λ d. consume_rows d.clock hash d) db in
      handle row pure (λ e. fail (consume_error "tokens.ConsumeActiveToken" e)) db'

  unfoldable pub insert_new : RefreshToken → RefreshToken → Action Database RefreshToken
  unfolding insert_token
  insert_new new_token old = do
    within "tokens.RotateRefreshToken insert"
        (statement (insert_token (record new_token { user_id = old.user_id; is_revoked = false })))
    pure old

  -- What follows the consumption in the transaction.
  unfoldable pub replace : RefreshToken → RefreshToken → Action Database RefreshToken
  unfolding insert_new
  replace new_token old db =
      if not (str_eq new_token.user_id "") && not (str_eq old.user_id new_token.user_id)
      then (err (sentinel invalid_refresh_token), db)
      else insert_new new_token old db

  -- The transaction after `BEGIN`, which fixes `NOW()`.
  unfoldable pub exchange : Time → String → RefreshToken → Action Database RefreshToken
  unfolding consume_rows replace
  exchange at old_hash new_token db =
      let (row, db') = scan_one (consume_rows at old_hash) db in
      handle row (replace new_token)
        (λ e. fail (consume_error "tokens.RotateRefreshToken consume" e)) db'

  unfoldable pub rotate_refresh_token : String → Option RefreshToken → Action Database RefreshToken
  unfolding exchange
  rotate_refresh_token old_hash none =
      fail (wrap "tokens.RotateRefreshToken" (sentinel invalid_params))
  rotate_refresh_token old_hash (some new_token) = do
    at ← within "tokens.RotateRefreshToken begin" (statement (λ d. (ok d.clock, d)))
    transaction "tokens.RotateRefreshToken commit" (exchange at old_hash new_token)

  -- DELETE FROM refresh_tokens WHERE expires_at < NOW() OR is_revoked = true
  unfoldable pub cleanup_rows : Database → Result (Unit {0}) × Database
  cleanup_rows db = (
    ok tt,
    record db { tokens = select (λ t. not (ltb t.expires_at db.clock || t.is_revoked)) db.tokens },
  )

  unfoldable pub cleanup_expired_tokens : Action Database (Unit {0})
  unfolding cleanup_rows
  cleanup_expired_tokens = within "tokens.CleanupExpiredTokens" (statement cleanup_rows)

  -- SELECT … FROM refresh_tokens WHERE user_id = $1 ORDER BY created_at DESC
  unfoldable pub find_user_tokens : String → Action Database (List RefreshToken)
  find_user_tokens user_id = do
    rows ←
        within "tokens.FindUserTokens"
          (statement (λ d. (ok (sv.tokens_newest_first (select (of_user user_id) d.tokens)), d)))
    within "tokens.FindUserTokens scan" (read_rows rows)

  -- UPDATE refresh_tokens SET is_revoked = true WHERE user_id = $1 AND is_revoked = false
  unfoldable pub revoke_all_rows : String → Database → Result (Unit {0}) × Database
  revoke_all_rows user_id db = (
    ok tt,
    record db { tokens = update (λ t. of_user user_id t && not t.is_revoked) revoked db.tokens },
  )

  unfoldable pub revoke_all_user_tokens : String → Action Database (Unit {0})
  unfolding revoke_all_rows
  revoke_all_user_tokens user_id =
      within "tokens.RevokeAllUserTokens" (statement (revoke_all_rows user_id))

  abbrev pub token_repository : TokenRepository Database
  token_repository = record {
    store_refresh_token = store_refresh_token;
    find_by_token = find_by_token;
    revoke_token = revoke_token;
    consume_active_token = consume_active_token;
    rotate_refresh_token = rotate_refresh_token;
    revoke_all_user_tokens = revoke_all_user_tokens;
    cleanup_expired_tokens = cleanup_expired_tokens;
    find_user_tokens = find_user_tokens;
  }
