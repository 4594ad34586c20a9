-- ===== src/Jwt.antt =====
-- internal/adapters/jwt/jwt.go. What it takes from github.com/golang-jwt/jwt and google/uuid is the
-- parameter `JwtLibrary`; a clock and a source of ids are read from the state.
pub mod Sample
pub mod Both
pub mod Tokens
mod Tests
use notes_microservices.Prelude.{
  ℕ, suc, ◌+◌, ◌-◌, ℤ, pos, negsuc, String, len, Bool, true, false, not, ◌||◌, Option, none, some,
  str_eq, ◌==◌, if◌then◌else◌,
}
use notes_microservices.Failure.{
  Err, sentinel, foreign, both, detail, is_foreign, token_expired, token_generation,
  invalid_jwt_token, expired_jwt_token,
}
use notes_microservices.Action.{Action, Result, ok, err}
use notes_microservices.Domain.{Time}
use notes_microservices.Ports.{TokenService}

abbrev pub token_use_access : String
token_use_access = "access"

abbrev pub token_use_refresh : String
token_use_refresh = "refresh"

-- `claims` with the fields of `RegisteredClaims` that are set.
pub record Claims : Type 0 where
  pub user_id : String
  pub username : String
  pub token_use : String
  pub id : String
  pub issued_at : Time
  pub expires_at : Time
  pub subject : String

-- `numeric_date` is `jwt.NewNumericDate`; `signed_string` signs with HS256 and a key; `parse` is
-- `ParseWithClaims` at a time, with what the key function returns: an error, or `token.Valid` and the
-- claims. `new_string n` is the n-th id that `uuid.NewString` makes.
pub record JwtLibrary : Type 0 where
  pub numeric_date : Time → Time
  pub signed_string : String → Claims → Result String
  pub parse : Time → Result String → String → Result (Bool × Claims)
  pub new_string : ℕ → String

-- `Service`; the parser is the library's. A key is its bytes.
pub record Service : Type 0 where
  pub access_key : String
  pub refresh_key : String
  pub access_token_ttl : ℤ
  pub refresh_token_ttl : ℤ

abbrev pub new_issuer : String → String → ℤ → ℤ → Service
new_issuer access_secret refresh_secret access_ttl refresh_ttl = record {
  access_key = access_secret;
  refresh_key = refresh_secret;
  access_token_ttl = access_ttl;
  refresh_token_ttl = refresh_ttl;
}

abbrev pub new_access_verifier : String → Service
new_access_verifier access_secret = record {
  access_key = access_secret;
  refresh_key = "";
  access_token_ttl = pos 0;
  refresh_token_ttl = pos 0;
}

-- `now.Add(ttl)`; a time before the zero time does not occur.
abbrev pub add_duration : Time → ℤ → Time
add_duration now (pos d) = now + d
add_duration now (negsuc d) = now - suc d

-- `%w: %w` with ErrTokenGeneration, and the returned values.
abbrev pub generated : Time → Result String → Result (String × Time)
generated expires_at (ok token) = ok (token, expires_at)
generated expires_at (err e) = err (both (sentinel token_generation) e)

-- The key function of `ValidateAccessToken`.
abbrev pub key_of : String → Result String
key_of key = if len key == 0 then err (sentinel invalid_jwt_token) else ok key

abbrev pub checked_claims : Result (Bool × Claims) → Result String
checked_claims (err e) =
    if is_foreign e token_expired
    then err (sentinel expired_jwt_token)
    else err (both (sentinel invalid_jwt_token) e)
checked_claims (ok (valid, c)) =
    if not valid || str_eq c.user_id "" || not (str_eq c.token_use token_use_access)
    then err (sentinel invalid_jwt_token)
    else ok c.user_id

module _ (lib : JwtLibrary) where
  -- The claims that `generateToken` signs, with the n-th id.
  abbrev pub token_claims : String → String → String → Time → Time → ℕ → Claims
  token_claims user_id username token_use now expires_at n = record {
    user_id = user_id;
    username = username;
    token_use = token_use;
    id = lib.new_string n;
    issued_at = lib.numeric_date now;
    expires_at = lib.numeric_date expires_at;
    subject = user_id;
  }

  -- `generateToken` at the time `now`.
  unfoldable pub generate_token :
      String → String → ℤ → String → String → Time → ℕ → Result (String × Time)
  generate_token user_id username ttl token_use key now n =
      if len key == 0
      then err (detail (sentinel token_generation) "empty secret")
      else (let expires_at = add_duration now ttl in
          generated expires_at
            (lib.signed_string key (token_claims user_id username token_use now expires_at n)))

  unfoldable pub validate_access_token : Service → Time → String → Result String
  validate_access_token s now token = checked_claims (lib.parse now (key_of s.access_key) token)

module _ {S : Type 0} (lib : JwtLibrary) (now : S → Time) (drawn : S → ℕ) (draw : S → S)
    (svc : Service) where
  -- An id is drawn whenever a token is made with a key.
  abbrev made : String → S → S
  made key s = if len key == 0 then s else draw s

  unfoldable pub token_service : TokenService S
  unfolding generate_token validate_access_token
  token_service = record {
    generate_access_token = λ user_id username s. (
      generate_token lib user_id username svc.access_token_ttl token_use_access svc.access_key
          (now s) (drawn s),
      made svc.access_key s,
    );
    generate_refresh_token = λ user_id s. (
      generate_token lib user_id "" svc.refresh_token_ttl token_use_refresh svc.refresh_key (now s)
          (drawn s),
      made svc.refresh_key s,
    );
    validate_access_token = λ token s. (validate_access_token lib svc (now s) token, s);
  }
