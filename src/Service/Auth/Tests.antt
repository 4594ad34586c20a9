-- ===== src/Service/Auth/Tests.antt =====
-- A revoked token that comes back, on the fixture.
use notes_microservices.Prelude.{◌≡◌, refl, true, str_neq, [], ◌∷◌}
use notes_microservices.Failure.{sentinel, wrap, revoked_refresh_token}
use notes_microservices.Action.{ok, err}
use notes_microservices.Ports.{PasswordService, TokenService}
use notes_microservices.Postgres.Store.{Database}
use notes_microservices.Postgres.Consistent.{IsConsistent}
use notes_microservices.Postgres.Fixture.{server, database, live_token, revoked_token, bob}
use notes_microservices.Service.Auth.{refresh_tokens, logout}
use notes_microservices.Domain.{RefreshToken}
use notes_microservices.Service.Auth.Expiry.{expiry_revokes_all}
use notes_microservices.Service.Auth.Logout.{IsLoggedOut, logout_succeeds}
use notes_microservices.Service.Auth.Reuse.{AllRevoked, reuse_revokes_all}

abbrev passwords : PasswordService Database
passwords = record { hash = λ p s. (ok p, s); verify = λ p h s. (ok true, s) }

abbrev signer : TokenService Database
signer = record {
  generate_access_token = λ id username s. (ok ("access", 20), s);
  generate_refresh_token = λ id s. (ok ("refresh", 300), s);
  validate_access_token = λ token s. (ok "u1", s);
}

reuse_revokes_all_example :
    ((refresh_tokens server (λ t. t) passwords signer "h2" database).0
      ≡ err (wrap "refresh" (sentinel revoked_refresh_token)))
    × AllRevoked "u1" (refresh_tokens server (λ t. t) passwords signer "h2" database).1.tokens
reuse_revokes_all_example =
    reuse_revokes_all server (λ t. t) passwords signer "h2" revoked_token database refl refl refl
      (str_neq "u1" "" refl)

logout_succeeds_example :
    ((logout server (λ t. t) passwords signer "h1" database).0 ≡ ok tt)
    × IsLoggedOut "h1" (logout server (λ t. t) passwords signer "h1" database).1.tokens
    × ((logout server (λ t. t) passwords signer "h1" database).1.users ≡ database.users)
    × ((logout server (λ t. t) passwords signer "h1" database).1.notes ≡ database.notes)
logout_succeeds_example = logout_succeeds server (λ t. t) passwords signer "h1" database refl

abbrev ending_token : RefreshToken
ending_token = record live_token { expires_at = 10 }

abbrev at_the_end : Database
at_the_end = record database { tokens = ending_token ∷ revoked_token ∷ [] }

consistent : IsConsistent at_the_end.users at_the_end.tokens
consistent = record {
  emails = (refl, tt);
  usernames = (refl, tt);
  hashes = (refl, (refl, tt));
  owned = (refl, (refl, tt));
}

expiry_revokes_all_example :
    ((refresh_tokens server (λ t. t) passwords signer "h1" at_the_end).0
      ≡ err (wrap "refresh" (sentinel revoked_refresh_token)))
    × AllRevoked "u1" (refresh_tokens server (λ t. t) passwords signer "h1" at_the_end).1.tokens
expiry_revokes_all_example =
    expiry_revokes_all server (λ t. t) passwords signer "h1" ending_token bob ("access", 20)
      ("refresh", 300) at_the_end refl refl consistent refl refl (str_neq "u1" "" refl) refl refl
      refl
