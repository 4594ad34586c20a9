-- ===== src/Failure.antt =====
-- The error values of the program: internal/domain/err.go, the other `errors.New` variables
-- (internal/fault, internal/adapters, internal/bootstrap), and the ways in which `fmt.Errorf` wraps.
-- The two sentinels of Go's `context` package stand beside the program's own.
pub mod Laws
use Prim.Native.String.{◌++◌}
use notes_microservices.Prelude.{ℕ, Bool, true, false, ◌||◌, String, ◌==◌}

pub data Sentinel : Type 0 where
  empty_user_id invalid_email empty_username password_too_short password_too_weak invalid_params
        user_not_found invalid_credentials email_already_exists user_already_exists
        invalid_refresh_token revoked_refresh_token token_generation invalid_jwt_token
        expired_jwt_token unauthorized note_not_found note_not_found_or_not_owned empty_note_title
        note_content_too_large note_title_too_long username_too_long service_unavailable :
      Sentinel
  circuit_open context_canceled canceled deadline_exceeded metadata_not_found auth_header_not_found
        backend_status empty_password redis_config_required invalid_config no_auth_header
        invalid_auth_format :
      Sentinel

-- `errors.New` gives every variable an identity of its own, by which `errors.Is` compares.
abbrev pub tag : Sentinel → ℕ
tag empty_user_id = 0
tag invalid_email = 1
tag empty_username = 2
tag password_too_short = 3
tag password_too_weak = 4
tag invalid_params = 5
tag user_not_found = 6
tag invalid_credentials = 7
tag email_already_exists = 8
tag user_already_exists = 9
tag invalid_refresh_token = 10
tag revoked_refresh_token = 11
tag token_generation = 12
tag invalid_jwt_token = 13
tag expired_jwt_token = 14
tag unauthorized = 15
tag note_not_found = 16
tag note_not_found_or_not_owned = 17
tag empty_note_title = 18
tag note_content_too_large = 19
tag note_title_too_long = 20
tag username_too_long = 21
tag service_unavailable = 22
tag circuit_open = 23
tag context_canceled = 24
tag canceled = 25
tag deadline_exceeded = 26
tag metadata_not_found = 27
tag auth_header_not_found = 28
tag backend_status = 29
tag empty_password = 30
tag redis_config_required = 31
tag invalid_config = 32
tag no_auth_header = 33
tag invalid_auth_format = 34

abbrev pub same : Sentinel → Sentinel → Bool
same s t = tag s == tag t

-- The text of `Error()`.
unfoldable pub text : Sentinel → String
text empty_user_id = "user ID cannot be empty"
text invalid_email = "invalid email format"
text empty_username = "username cannot be empty"
text password_too_short = "password must contain at least 8 characters"
text password_too_weak = "password must contain at least one letter and one digit"
text invalid_params = "invalid parameters"
text user_not_found = "user not found"
text invalid_credentials = "invalid credentials"
text email_already_exists = "user with this email already exists"
text user_already_exists = "user already exists"
text invalid_refresh_token = "invalid refresh token"
text revoked_refresh_token = "refresh token has been revoked"
text token_generation = "failed to generate authentication tokens"
text invalid_jwt_token = "invalid JWT token"
text expired_jwt_token = "JWT token has expired"
text unauthorized = "unauthorized access"
text note_not_found = "note not found"
text note_not_found_or_not_owned = "note not found or not owned by user"
text empty_note_title = "note title cannot be empty"
text note_content_too_large = "note content exceeds maximum size"
text note_title_too_long = "note title exceeds maximum length"
text username_too_long = "username exceeds maximum length"
text service_unavailable = "service unavailable"
text circuit_open = "circuit breaker is open"
text context_canceled = "context was canceled during retry"
text canceled = "context canceled"
text deadline_exceeded = "context deadline exceeded"
text metadata_not_found = "metadata not found in context"
text auth_header_not_found = "authorization header not found"
text backend_status = "backend error"
text empty_password = "password is empty"
text redis_config_required = "redis config is required"
text invalid_config = "invalid configuration"
text no_auth_header = "no authorization header provided"
text invalid_auth_format = "invalid authorization header format"

-- The errors of third-party packages that the program asks for by `errors.Is`.
pub data Foreign : Type 0 where
  no_rows redis_nil token_expired mismatched_hash no_change other : Foreign

abbrev pub foreign_tag : Foreign → ℕ
foreign_tag no_rows = 0
foreign_tag redis_nil = 1
foreign_tag token_expired = 2
foreign_tag mismatched_hash = 3
foreign_tag no_change = 4
foreign_tag other = 5

-- What the program reads of a `pgconn.PgError`; `shown` is what its `Error()` returns.
pub record PgError : Type 0 where
  pub code : String
  pub constraint_name : String
  pub detail : String
  pub shown : String

-- `wrap s e` is `fmt.Errorf("s: %w", e)`, `both d e` is `fmt.Errorf("%w: %w", d, e)` and
-- `detail e s` is `fmt.Errorf("%w: %s", e, s)`. A third-party error carries its text.
pub data Err : Type 0 where
  sentinel : Sentinel → Err
  foreign : Foreign → String → Err
  pg : PgError → Err
  fiber : ℕ → String → Err
  wrap : String → Err → Err
  both : Err → Err → Err
  detail : Err → String → Err

-- `errors.Is(e, target)` for a variable of the program.
abbrev pub is : Err → Sentinel → Bool
is (sentinel s) target = same s target
is (foreign k s) target = false
is (pg e) target = false
is (fiber c s) target = false
is (wrap s e) target = is e target
is (both d e) target = is d target || is e target
is (detail e s) target = is e target

-- `errors.Is(e, target)` for a variable of a third-party package.
abbrev pub is_foreign : Err → Foreign → Bool
is_foreign (sentinel s) target = false
is_foreign (foreign k s) target = foreign_tag k == foreign_tag target
is_foreign (pg e) target = false
is_foreign (fiber c s) target = false
is_foreign (wrap s e) target = is_foreign e target
is_foreign (both d e) target = is_foreign d target || is_foreign e target
is_foreign (detail e s) target = is_foreign e target

-- `err.Error()`
unfoldable pub message : Err → String
unfolding text
message (sentinel s) = text s
message (foreign k s) = s
message (pg e) = e.shown
message (fiber c s) = s
message (wrap s e) = s ++ ": " ++ message e
message (both d e) = message d ++ ": " ++ message e
message (detail e s) = message e ++ ": " ++ s

-- Wrapping by any number of `fmt.Errorf("…: %w", …)`.
pub data Wraps (s : Sentinel) : Err → Type 0 where
  itself : Wraps s (sentinel s)
  under : {e : Err} (context : String) → Wraps s e → Wraps s (wrap context e)
