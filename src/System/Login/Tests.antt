-- ===== src/System/Login/Tests.antt =====
-- A login at a library that signs the two tokens of one user.
use notes_microservices.Prelude.{
  ℕ, ◌≡◌, ◌≢◌, refl, pos, str_eq, str_neq, arith, if◌then◌else◌, ◌+◌, [],
}
use notes_microservices.Failure.{sentinel, expired_jwt_token, user_not_found, invalid_refresh_token}
use notes_microservices.Action.{Result, ok, err}
use notes_microservices.Domain.{User, TokenPair, RefreshToken}
use notes_microservices.Ports.{UserRepository, TokenRepository, PasswordService}
use notes_microservices.App.Auth.{login}
use notes_microservices.Jwt.{new_access_verifier, validate_access_token, token_service}
use notes_microservices.Jwt.Both.{both_tokens, both_tokens-IsSound}
use notes_microservices.System.Login.{issuer, login-validate_access_token}

abbrev ann : User
ann = record {
  created_at = 0;
  updated_at = 0;
  id = "u1";
  email = "a@b.cd";
  username = "bob";
  password_hash = "h";
}

abbrev users : UserRepository ℕ
users = record {
  create = λ u s. (ok ann, s);
  find_by_id = λ id s. (ok ann, s);
  find_by_email =
      λ email s. if str_eq email "a@b.cd" then (ok ann, s) else (err (sentinel user_not_found), s);
  update = λ u s. (ok ann, s);
  delete = λ id s. (ok tt, s);
}

abbrev done : (s : ℕ) → Result (Unit {0}) × ℕ
done s = (ok tt, s)

abbrev unknown : (s : ℕ) → Result RefreshToken × ℕ
unknown s = (err (sentinel invalid_refresh_token), s)

abbrev tokens : TokenRepository ℕ
tokens = record {
  store_refresh_token = λ row. done;
  find_by_token = λ hash. unknown;
  revoke_token = λ hash. done;
  consume_active_token = λ hash. unknown;
  rotate_refresh_token = λ hash row. unknown;
  revoke_all_user_tokens = λ id. done;
  cleanup_expired_tokens = done;
  find_user_tokens = λ id s. (ok [], s);
}

abbrev passwords : PasswordService ℕ
passwords = record {
  hash = λ password s. (ok password, s);
  verify = λ password hashed s. (ok (str_eq password hashed), s);
}

-- The pair for 900 seconds and 8900 seconds at the time 105, whose access token ends at 1000.
abbrev pair : TokenPair
pair = record {
  expires_at = 1005;
  user_id = "u1";
  username = "bob";
  access_token = "a";
  refresh_token = "r";
}

login_ann :
    (login
      (λ s. 105)
      (λ t. t)
      users
      tokens
      passwords
      (issuer both_tokens (λ s. 105) (λ s. s) (λ s. s + 1) "ka" "kr" (pos 900) (pos 8900))
      "a@b.cd"
      "h"
      0).0
    ≡ ok pair
unfolding login token_service
login_ann = refl

login-validate_access_token_example :
    (validate_access_token both_tokens (new_access_verifier "ka") 999 "a" ≡ ok "u1")
    × (validate_access_token both_tokens (new_access_verifier "ka") 1001 "a"
        ≡ err (sentinel expired_jwt_token))
    × (validate_access_token both_tokens (new_access_verifier "kr") 200 "r" ≢ ok "u1")
login-validate_access_token_example =
    login-validate_access_token both_tokens (λ s. 105) (λ s. s) (λ s. s + 1) "ka" "kr" (pos 900)
      (pos 8900) both_tokens-IsSound (λ t. t) users tokens passwords "a@b.cd" "h" pair 0 999 1001
      200 (new_access_verifier "kr") "u1" login_ann (str_neq "u1" "" refl) (omega arith)
      (omega arith)
