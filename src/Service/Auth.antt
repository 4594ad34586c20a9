-- ===== src/Service/Auth.antt =====
-- The auth service of `StartAuth`: the auth use cases over the Postgres repositories. The password
-- service and the signer of tokens are parameters.
pub mod Reuse
pub mod Logout
pub mod Account
pub mod Expiry
pub mod Sessions
mod Tests
use notes_microservices.Prelude.{String, Option}
use notes_microservices.Action.{Action}
use notes_microservices.Domain.{User, TokenPair}
use notes_microservices.Ports.{PasswordService, TokenService}
use notes_microservices.App.Auth
use notes_microservices.Postgres.Store.{Server, Database, now}
use notes_microservices.Postgres.Users.{user_repository}
use notes_microservices.Postgres.Tokens.{token_repository}

module _ (sv : Server) (hash_token : String → String) (passwords : PasswordService Database)
    (signer : TokenService Database) where
  abbrev pub register : String → String → String → Action Database TokenPair
  register =
      Auth.register now hash_token (user_repository sv) (token_repository sv) passwords signer

  abbrev pub login : String → String → Action Database TokenPair
  login = Auth.login now hash_token (user_repository sv) (token_repository sv) passwords signer

  abbrev pub tokens_for : User → Action Database TokenPair
  tokens_for =
      Auth.generate_token_pair now hash_token (user_repository sv) (token_repository sv) passwords
        signer

  abbrev pub find_optional : String → Action Database (Option User)
  find_optional =
      Auth.find_optional now hash_token (user_repository sv) (token_repository sv) passwords signer

  abbrev pub refresh_tokens : String → Action Database TokenPair
  refresh_tokens =
      Auth.refresh_tokens now hash_token (user_repository sv) (token_repository sv) passwords signer

  abbrev pub logout : String → Action Database (Unit {0})
  logout = Auth.logout now hash_token (user_repository sv) (token_repository sv) passwords signer
