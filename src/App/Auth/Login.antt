-- ===== src/App/Auth/Login.antt =====
-- What an unsuccessful login shows.
use notes_microservices.Prelude.{◌≡◌, String, Bool, true, false, arith}
use notes_microservices.Failure.{Err, sentinel, wrap, is, user_not_found, invalid_credentials}
use notes_microservices.Action.{ok, err}
use notes_microservices.Domain.{Time, User}
use notes_microservices.Ports.{UserRepository, TokenRepository, PasswordService, TokenService}
use notes_microservices.App.Auth.{login, dummy_password_hash}

module _ {S : Type 0} (hash_token : String → String) (now : S → Time) (users : UserRepository S)
    (tokens : TokenRepository S) (passwords : PasswordService S) (signer : TokenService S) where
  -- An unknown e-mail address and a wrong password end alike: one password verification, against the
  -- dummy hash or the user's, no token made or stored, and the same error.
  pub rejected_alike :
      (unknown known password : String) (s0 s1 s2 t0 t1 t2 : S) (e : Err) (u : User) (valid : Bool)
      → is e user_not_found ≡ true
      → users.find_by_email unknown s0 ≡ (err e, s1)
      → passwords.verify password dummy_password_hash s1 ≡ (ok valid, s2)
      → users.find_by_email known t0 ≡ (ok u, t1)
      → passwords.verify password u.password_hash t1 ≡ (ok false, t2)
      → (login now hash_token users tokens passwords signer unknown password s0
          ≡ (err (wrap "login" (sentinel invalid_credentials)), s2))
        × (login now hash_token users tokens passwords signer known password t0
            ≡ (err (wrap "login" (sentinel invalid_credentials)), t2))
  unfolding login
  rejected_alike unknown known password s0 s1 s2 t0 t1 t2 e u valid missing lost tried found wrong =
      (ground arith, ground arith)
