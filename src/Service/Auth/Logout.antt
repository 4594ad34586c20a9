-- ===== src/Service/Auth/Logout.antt =====
-- Logging out.
use mathlib.Core.Path.{subst}
use notes_microservices.Prelude.{
  ◌≡◌, sym, ap, String, true, List, [], ◌∷◌, All, select, update, arith,
}
use notes_microservices.Action.{ok}
use notes_microservices.Domain.{RefreshToken}
use notes_microservices.Ports.{PasswordService, TokenService}
use notes_microservices.App.Auth
use notes_microservices.Postgres.Store.{Server, Database, take_turn, statement, scan_one}
use notes_microservices.Postgres.Tokens
use notes_microservices.Postgres.Tokens.{has_token, revoked}
use notes_microservices.Service.Auth.{logout}

-- Every row of the token is revoked.
abbrev pub IsLoggedOut : String → List RefreshToken → Type 0
IsLoggedOut hash ts = All (λ t. t.is_revoked ≡ true) (select (has_token hash) ts)

update-IsLoggedOut :
    (hash : String) (ts : List RefreshToken) → IsLoggedOut hash (update (has_token hash) revoked ts)
update-IsLoggedOut hash [] = tt
update-IsLoggedOut hash (t ∷ ts) = ground (arith, update-IsLoggedOut hash ts)

module _ (sv : Server) (hash_token : String → String) (passwords : PasswordService Database)
    (signer : TokenService Database) where
  logout-run :
      (refresh_token : String) (db : Database)
      → db.turns ≡ []
      → logout sv hash_token passwords signer refresh_token db ≡ (
        ok tt,
        record db { tokens = update (has_token (hash_token refresh_token)) revoked db.tokens },
      )
  unfolding Auth.logout Tokens.find_by_token Tokens.revoke_token scan_one statement take_turn
  logout-run refresh_token db quiet = ground arith

  -- A logout succeeds for any token, known, unknown or revoked before, and leaves no live row of the
  -- token; the users and the notes are as before, if the database answers.
  pub logout_succeeds :
      (refresh_token : String) (db : Database)
      → db.turns ≡ []
      → ((logout sv hash_token passwords signer refresh_token db).0 ≡ ok tt)
        × IsLoggedOut
            (hash_token refresh_token)
            (logout sv hash_token passwords signer refresh_token db).1.tokens
        × ((logout sv hash_token passwords signer refresh_token db).1.users ≡ db.users)
        × ((logout sv hash_token passwords signer refresh_token db).1.notes ≡ db.notes)
  logout_succeeds refresh_token db quiet =
      let run = logout-run refresh_token db quiet in
      (
        ap (λ p. p.0) run,
        subst (λ p. IsLoggedOut (hash_token refresh_token) p.1.tokens) (sym run)
            (update-IsLoggedOut (hash_token refresh_token) db.tokens),
        ap (λ p. p.1.users) run,
        ap (λ p. p.1.notes) run,
      )
