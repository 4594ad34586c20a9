-- ===== src/Http/Auth.antt =====
-- internal/adapters/http/auth.go. A request body that does not bind is `none`.
use notes_microservices.Prelude.{ℕ, String, ◌||◌, Option, none, some, str_eq, if◌then◌else◌}
use notes_microservices.Failure.{Err, text, no_auth_header}
use notes_microservices.Domain.{User, TokenPair, validate_email, validate_password}
use notes_microservices.Fault.Retry.{Return}
use notes_microservices.Http.{
  Response, Body, json_response, error_response, token_body, profile_body, message_body,
}
use notes_microservices.Http.Errors.{handle_error, recovered}

pub record RegisterRequest : Type 0 where
  pub email : String
  pub username : String
  pub password : String

pub record LoginRequest : Type 0 where
  pub email : String
  pub password : String

-- `ports.AuthService`
pub record AuthService (S : Type 0) : Type 0 where
  pub register : String → String → String → S → Return (Option TokenPair) × S
  pub login : String → String → S → Return (Option TokenPair) × S
  pub refresh_tokens : String → S → Return (Option TokenPair) × S
  pub logout : String → S → Option Err × S
  pub get_user_profile : String → S → Return (Option User) × S

-- The response to the two results of a service; a nil result without an error panics.
module _ {A : Type 0} where
  abbrev pub respond : ℕ → (A → Body) → Option Err → Option A → Response
  respond status body (some e) x = handle_error e
  respond status body none (some x) = json_response status (body x)
  respond status body none none = recovered

  abbrev pub respond_return : ℕ → (A → Body) → Return (Option A) → Response
  respond_return status body out = respond status body out.error out.value

abbrev pub respond_error : Response → Option Err → Response
respond_error done (some e) = handle_error e
respond_error done none = done

-- `if err != nil { return handleError(fctx, err) }` before what follows.
abbrev pub unless_invalid : {S : Type 0} → Option Err → (S → Response × S) → S → Response × S
unless_invalid (some e) k s = (handle_error e, s)
unless_invalid none k s = k s

module _ {S : Type 0} (service : AuthService S) where
  unfoldable pub register : Option RegisterRequest → S → Response × S
  unfolding handle_error
  register none s = (error_response 400 "invalid request body", s)
  register (some req) s =
      if str_eq req.email "" || str_eq req.username "" || str_eq req.password ""
      then (error_response 400 "email, username and password are required", s)
      else unless_invalid (validate_email req.email)
          (unless_invalid (validate_password req.password) (λ s.
            let (out, s') = service.register req.email req.username req.password s in
            (respond_return 201 token_body out, s')))
          s

  unfoldable pub login : Option LoginRequest → S → Response × S
  unfolding handle_error
  login none s = (error_response 400 "invalid request body", s)
  login (some req) s =
      if str_eq req.email "" || str_eq req.password ""
      then (error_response 400 "email and password are required", s)
      else unless_invalid (validate_email req.email)
          (λ s.
            let (out, s') = service.login req.email req.password s in
            (respond_return 200 token_body out, s'))
          s

  unfoldable pub refresh_tokens : Option String → S → Response × S
  unfolding handle_error
  refresh_tokens none s = (error_response 400 "invalid request body", s)
  refresh_tokens (some refresh_token) s =
      if str_eq refresh_token ""
      then (error_response 400 "refresh token is required", s)
      else (let (out, s') = service.refresh_tokens refresh_token s in
          (respond_return 200 token_body out, s'))

  unfoldable pub logout : Option String → S → Response × S
  unfolding handle_error
  logout none s = (error_response 400 "invalid request body", s)
  logout (some refresh_token) s =
      if str_eq refresh_token ""
      then (error_response 400 "refresh token is required", s)
      else (let (e, s') = service.logout refresh_token s in
          (respond_error (json_response 200 (message_body "logged out successfully")) e, s'))

  unfoldable pub get_profile : String → S → Response × S
  unfolding handle_error
  get_profile token s =
      if str_eq token ""
      then (error_response 401 (text no_auth_header), s)
      else (let (out, s') = service.get_user_profile token s in
          (respond_return 200 profile_body out, s'))
