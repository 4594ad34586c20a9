-- ===== src/Service/Auth/Expiry.antt =====
-- A refresh token at the end of its life.
use mathlib.Core.Path.{subst}
use notes_microservices.Prelude.{
  ◌≤◌, ◌≡◌, ◌≢◌, ◌∙◌, refl, ap, sym, String, false, not, ◌&&◌, some, none, List, [], ◌∷◌, find,
  count, update, arith, eq_iff, inl, inr, Bool-cases, ltb, if◌then◌else◌,
}
use notes_microservices.Failure.{sentinel, wrap, is, revoked_refresh_token, invalid_refresh_token}
use notes_microservices.Action.{Action, ok, err, handle, pure, fail}
use notes_microservices.Action.Laws.{bind-ok}
use notes_microservices.Domain.{Time, User, RefreshToken, TokenPair}
use notes_microservices.Ports.{PasswordService, TokenService}
use notes_microservices.App.Auth
use notes_microservices.App.Auth.{rotate, refresh_found, reject_refresh_reuse, pair_of, token_row}
use notes_microservices.Postgres.Store.{Server, Database, now, take_turn, statement, scan_one}
use notes_microservices.Postgres.Users.{has_id, find_by_id, find_user, user_repository}
use notes_microservices.Postgres.Tokens
use notes_microservices.Postgres.Tokens.{has_token, is_active, of_user, revoked, token_repository}
use notes_microservices.Postgres.Consistent.{IsConsistent}
use notes_microservices.Postgres.Consistent.Keys.{count_of_AllDistinct}
use notes_microservices.Service.Auth.{refresh_tokens}
use notes_microservices.Service.Auth.Reuse.{AllRevoked, update-AllRevoked}

-- Where one row at most has a hash, and that row is not active, none with the hash is.
uncounted_find :
    (at : Time) (hash : String) (ts : List RefreshToken)
    → count (has_token hash) ts ≡ 0
    → find (is_active at hash) ts ≡ none
uncounted_find at hash [] unseen = refl
uncounted_find at hash (t ∷ ts) unseen = ground (arith, uncounted_find at hash ts)

inactive_find :
    (at : Time) (hash : String) (row : RefreshToken) (ts : List RefreshToken)
    → find (has_token hash) ts ≡ some row
    → count (has_token hash) ts ≤ 1
    → is_active at hash row ≡ false
    → find (is_active at hash) ts ≡ none
inactive_find at hash row [] found few off = cc
inactive_find at hash row (t ∷ ts) found few off = elim (Bool-cases (has_token hash t)) [
  | inl here ↦
      (let rest : count (has_token hash) ts ≡ 0 = ground arith in
        let same : is_active at hash t ≡ false = ground arith in
        ground (arith, uncounted_find at hash ts))
  | inr elsewhere ↦ ground (arith, inactive_find at hash row ts)
]

module _ (sv : Server) (hash_token : String → String) (passwords : PasswordService Database)
    (signer : TokenService Database) where
  found-run :
      (hash : String) (row : RefreshToken) (db : Database)
      → db.turns ≡ []
      → find (has_token hash) db.tokens ≡ some row
      → Tokens.find_by_token sv hash db ≡ (ok row, db)
  unfolding Tokens.find_by_token scan_one statement take_turn
  found-run hash row db quiet found = ground arith

  user-run :
      (id : String) (user : User) (db : Database)
      → db.turns ≡ []
      → find (has_id id) db.users ≡ some user
      → find_by_id sv id db ≡ (ok user, db)
  unfolding find_by_id find_user scan_one statement take_turn
  user-run id user db quiet found = ground arith

  refused-run :
      (hash : String) (new : RefreshToken) (db : Database)
      → db.turns ≡ []
      → find (is_active db.clock hash) db.tokens ≡ none
      → Tokens.rotate_refresh_token sv hash (some new) db
        ≡ (err (sentinel invalid_refresh_token), db)
  unfolding Tokens.rotate_refresh_token Tokens.exchange Tokens.consume_rows scan_one statement
      take_turn
  refused-run hash new db quiet spent = ground arith

  rejected-run :
      (user_id : String) (db : Database)
      → db.turns ≡ []
      → user_id ≢ ""
      → reject_refresh_reuse now hash_token
          (user_repository sv)
          (token_repository sv)
          passwords
          signer
          user_id
          db
        ≡ (
          err (wrap "refresh" (sentinel revoked_refresh_token)),
          record db {
            tokens = update (λ t. of_user user_id t && not t.is_revoked) revoked db.tokens;
          },
        )
  unfolding reject_refresh_reuse Tokens.revoke_all_user_tokens statement take_turn
  rejected-run user_id db quiet named = ground (arith, eq_iff user_id "")

  abbrev reuse : String → Action Database TokenPair
  reuse =
      reject_refresh_reuse now hash_token (user_repository sv) (token_repository sv) passwords
        signer

  rotate-run :
      (hash : String) (row : RefreshToken) (user : User) (access refresh : String × Time)
      (db : Database)
      → db.turns ≡ []
      → find (is_active db.clock hash) db.tokens ≡ none
      → find (has_id row.user_id) db.users ≡ some user
      → signer.generate_access_token user.id user.username db ≡ (ok access, db)
      → signer.generate_refresh_token user.id db ≡ (ok refresh, db)
      → rotate now hash_token
          (user_repository sv)
          (token_repository sv)
          passwords
          signer
          hash
          row
          db
        ≡ reuse row.user_id db
  unfolding rotate
  rotate-run hash row user access refresh db quiet spent owner access_made refresh_made =
      bind-ok "refresh: finding user" (find_by_id sv row.user_id) _ db db user
        (user-run row.user_id user db quiet owner)
      ∙ bind-ok "refresh: generating access token"
          (signer.generate_access_token user.id user.username) _ db db access access_made
      ∙ bind-ok "refresh: generating refresh token" (signer.generate_refresh_token user.id) _ db db
          refresh refresh_made
      ∙ ap
          (λ p.
            handle p.0 (λ _. pure (pair_of user access refresh))
              (λ e.
                if is e invalid_refresh_token
                then reuse row.user_id
                else fail (wrap "refresh: rotating refresh token" e))
              p.1)
          (refused-run hash (token_row hash_token user.id refresh) db quiet spent)

  found_live-run :
      (hash : String) (row : RefreshToken) (db : Database)
      → row.is_revoked ≡ false
      → db.clock ≤ row.expires_at
      → refresh_found now hash_token
          (user_repository sv)
          (token_repository sv)
          passwords
          signer
          hash
          row
          db
        ≡ rotate now hash_token
            (user_repository sv)
            (token_repository sv)
            passwords
            signer
            hash
            row
            db
  unfolding refresh_found
  found_live-run hash row db live fresh =
      let still : ltb row.expires_at db.clock ≡ false = ground arith in rw (live, still) refl

  -- A refresh token that is presented in the instant of its expiry passes the check and not the
  -- rotation, which is taken for reuse: every refresh token of its user is revoked, if the database
  -- answers, its tables are consistent, and tokens are made.
  pub expiry_revokes_all :
      (refresh_token : String) (row : RefreshToken) (user : User) (access refresh : String × Time)
      (db : Database)
      → db.turns ≡ []
      → find (has_token (hash_token refresh_token)) db.tokens ≡ some row
      → IsConsistent db.users db.tokens
      → row.is_revoked ≡ false
      → row.expires_at ≡ db.clock
      → row.user_id ≢ ""
      → find (has_id row.user_id) db.users ≡ some user
      → signer.generate_access_token user.id user.username db ≡ (ok access, db)
      → signer.generate_refresh_token user.id db ≡ (ok refresh, db)
      → ((refresh_tokens sv hash_token passwords signer refresh_token db).0
          ≡ err (wrap "refresh" (sentinel revoked_refresh_token)))
        × AllRevoked row.user_id
            (refresh_tokens sv hash_token passwords signer refresh_token db).1.tokens
  unfolding Auth.refresh_tokens
  expiry_revokes_all refresh_token row user access refresh db quiet found consistent live ends named
        owner access_made refresh_made =
      let hash = hash_token refresh_token in
      let few = count_of_AllDistinct (λ t. t.token) hash db.tokens consistent.hashes in
      let spent = inactive_find db.clock hash row db.tokens found few (ground arith) in
      let run : refresh_tokens sv hash_token passwords signer refresh_token db
          ≡ reuse row.user_id db =
        ap
          (λ p.
            handle p.0
              (refresh_found now hash_token (user_repository sv) (token_repository sv) passwords
                signer hash)
              (λ e.
                if is e invalid_refresh_token
                then fail (wrap "refresh" (sentinel invalid_refresh_token))
                else fail (wrap "refresh: looking up token" e))
              p.1)
          (found-run hash row db quiet found)
        ∙ found_live-run hash row db live (omega arith)
        ∙ rotate-run hash row user access refresh db quiet spent owner access_made refresh_made in
      let whole = run ∙ rejected-run row.user_id db quiet named in
      (
        ap (λ p. p.0) whole,
        subst (λ p. AllRevoked row.user_id p.1.tokens) (sym whole)
            (update-AllRevoked row.user_id db.tokens),
      )
