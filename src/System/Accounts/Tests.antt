-- ===== src/System/Accounts/Tests.antt =====
-- Bob logs in and reads his profile.
use notes_microservices.Prelude.{◌≡◌, refl, pos, str_eq, trim_space, cut}
use notes_microservices.Action.{ok}
use notes_microservices.Domain.{User, TokenPair}
use notes_microservices.Ports.{PasswordService, TokenService, AuthBackend}
use notes_microservices.App.Auth
use notes_microservices.Postgres.Store.{Database, statement, scan_one, take_turn, now}
use notes_microservices.Postgres.Users.{find_by_email, find_by_id, find_user}
use notes_microservices.Postgres.Tokens.{store_refresh_token}
use notes_microservices.Postgres.Fixture.{server, database}
use notes_microservices.Service.Auth.{login}
use notes_microservices.Jwt.{token_service}
use notes_microservices.Jwt.Both.{both_tokens, both_tokens-IsSound}
use notes_microservices.Rpc.Handlers
use notes_microservices.System.{Wire}
use notes_microservices.System.Login.{issuer}
use notes_microservices.System.Accounts.{auth_backend}
use notes_microservices.System.Accounts.Profile.{IsHonest, IsRowOf}
use notes_microservices.System.Accounts.Own.{login-get_user_profile}

abbrev passwords : PasswordService Database
passwords = record { hash = λ p s. (ok p, s); verify = λ p h s. (ok (str_eq p h), s) }

abbrev signer : TokenService Database
signer = issuer both_tokens now (λ s. 0) (λ s. s) "ka" "kr" (pos 900) (pos 8900)

abbrev direct : Wire Database
direct = record { deliver = λ m. m }

direct-IsHonest : IsHonest direct
direct-IsHonest = record { answers = λ m db a h. (db, refl, h) }

abbrev client : AuthBackend Database
client = auth_backend server (λ t. t) passwords signer str_eq direct (λ c. "") (λ db. (ok tt, db))

abbrev before : Database
before = record database { clock = 100 }

abbrev later : Database
later = (login server (λ t. t) passwords signer "bob@mail.com" "h" before).1

abbrev pair : TokenPair
pair = record {
  expires_at = 1000;
  user_id = "u1";
  username = "bob";
  access_token = "a";
  refresh_token = "r";
}

abbrev profile : User
profile = record {
  created_at = 1;
  updated_at = 0;
  id = "u1";
  email = "bob@mail.com";
  username = "bob";
  password_hash = "";
}

bob_logs_in :
    ((login server (λ t. t) passwords signer "bob@mail.com" "h" before).0 ≡ ok pair)
    × ((client.get_user_profile "a" later).0 ≡ ok profile)
unfolding Auth.login Auth.get_user_profile Handlers.get_user_profile token_service auth_backend
    find_by_email find_by_id find_user store_refresh_token scan_one statement take_turn trim_space
    cut
bob_logs_in = (refl, refl)

trimmed : trim_space "a" ≡ "a"
unfolding trim_space
trimmed = refl

login-get_user_profile_example : IsRowOf later.users "u1" profile
login-get_user_profile_example =
    login-get_user_profile server (λ t. t) passwords both_tokens (λ s. 0) (λ s. s) "ka" "kr"
      (pos 900) (pos 8900) str_eq direct (λ c. "") (λ db. (ok tt, db)) both_tokens-IsSound refl
      direct-IsHonest "bob@mail.com" "h" pair before later profile bob_logs_in.0 trimmed
      bob_logs_in.1
