-- ===== src/Service/Auth/Reuse.antt =====
-- What the auth service does when a revoked refresh token comes back.
use notes_microservices.Prelude.{
  select, ◌≡◌, ◌≢◌, String, true, not, ◌&&◌, some, List, [], ◌∷◌, All, find, update, arith, eq_iff,
  ap, sym,
}
use mathlib.Core.Path.{subst}
use notes_microservices.Failure.{sentinel, wrap, revoked_refresh_token}
use notes_microservices.Action.{err}
use notes_microservices.Domain.{RefreshToken}
use notes_microservices.Ports.{PasswordService, TokenService}
use notes_microservices.App.Auth
use notes_microservices.Postgres.Store.{Server, Database, take_turn, statement, scan_one}
use notes_microservices.Postgres.Tokens
use notes_microservices.Postgres.Tokens.{has_token, of_user, revoked}
use notes_microservices.Service.Auth.{refresh_tokens}

-- Every row of the user is revoked.
abbrev pub AllRevoked : String → List RefreshToken → Type 0
AllRevoked user_id ts = All (λ t. t.is_revoked ≡ true) (select (of_user user_id) ts)

pub update-AllRevoked :
    (user_id : String) (ts : List RefreshToken)
    → AllRevoked user_id (update (λ t. of_user user_id t && not t.is_revoked) revoked ts)
update-AllRevoked user_id [] = tt
update-AllRevoked user_id (t ∷ ts) = ground (arith, update-AllRevoked user_id ts)

module _ (sv : Server) (hash_token : String → String) (passwords : PasswordService Database)
    (signer : TokenService Database) where
  reuse-run :
      (refresh_token : String) (row : RefreshToken) (db : Database)
      → db.turns ≡ []
      → find (has_token (hash_token refresh_token)) db.tokens ≡ some row
      → row.is_revoked ≡ true
      → row.user_id ≢ ""
      → refresh_tokens sv hash_token passwords signer refresh_token db ≡ (
        err (wrap "refresh" (sentinel revoked_refresh_token)),
        record db {
          tokens = update (λ t. of_user row.user_id t && not t.is_revoked) revoked db.tokens;
        },
      )
  unfolding Auth.refresh_tokens Tokens.find_by_token Tokens.revoke_all_user_tokens scan_one
      statement take_turn
  reuse-run refresh_token row db quiet found spent named = ground (arith, eq_iff row.user_id "")

  -- A refresh token whose row is revoked gets the error for a revoked token, and afterwards every
  -- refresh token of its user is revoked, if the database answers.
  pub reuse_revokes_all :
      (refresh_token : String) (row : RefreshToken) (db : Database)
      → db.turns ≡ []
      → find (has_token (hash_token refresh_token)) db.tokens ≡ some row
      → row.is_revoked ≡ true
      → row.user_id ≢ ""
      → ((refresh_tokens sv hash_token passwords signer refresh_token db).0
          ≡ err (wrap "refresh" (sentinel revoked_refresh_token)))
        × AllRevoked row.user_id
            (refresh_tokens sv hash_token passwords signer refresh_token db).1.tokens
  reuse_revokes_all refresh_token row db quiet found spent named =
      let run = reuse-run refresh_token row db quiet found spent named in
      (
        ap (λ p. p.0) run,
        subst (λ p. AllRevoked row.user_id p.1.tokens) (sym run)
            (update-AllRevoked row.user_id db.tokens),
      )
