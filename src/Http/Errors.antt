-- ===== src/Http/Errors.antt =====
-- `httpErrorFromDomain` and `handleError` of internal/adapters/http/helpers.go, and the response of
-- `NewRecoveryMiddleware` to a panic.
pub mod Hiding
mod Tests
use notes_microservices.Prelude.{ℕ, String, ◌||◌, Option, none, some, if◌then◌else◌}
use notes_microservices.Failure.{
  Err, sentinel, foreign, pg, fiber, wrap, both, detail, is, message, invalid_params, invalid_email,
  empty_username, username_too_long, empty_user_id, password_too_short, password_too_weak,
  empty_note_title, note_title_too_long, note_content_too_large, unauthorized, invalid_credentials,
  invalid_refresh_token, revoked_refresh_token, invalid_jwt_token, expired_jwt_token,
  user_not_found, note_not_found, note_not_found_or_not_owned, email_already_exists,
  user_already_exists, service_unavailable, circuit_open,
}
use notes_microservices.Http.{Response, error_response}

abbrev pub internal_server_error : String
internal_server_error = "internal server error"

-- The status and the message of an error that is not nil.
unfoldable pub http_error_from_domain : Err → ℕ × String
unfolding message
http_error_from_domain e =
    if is e invalid_params
      || is e invalid_email
      || is e empty_username
      || is e username_too_long
      || is e empty_user_id
      || is e password_too_short
      || is e password_too_weak
      || is e empty_note_title
      || is e note_title_too_long
      || is e note_content_too_large
    then (400, message e)
    else if is e unauthorized
        || is e invalid_credentials
        || is e invalid_refresh_token
        || is e revoked_refresh_token
        || is e invalid_jwt_token
        || is e expired_jwt_token
    then (401, message e)
    else if is e user_not_found || is e note_not_found || is e note_not_found_or_not_owned
    then (404, message e)
    else if is e email_already_exists || is e user_already_exists
    then (409, message e)
    else if is e service_unavailable || is e circuit_open
    then (503, "service temporarily unavailable")
    else (500, internal_server_error)

abbrev first_fiber : Option (ℕ × String) → Option (ℕ × String) → Option (ℕ × String)
first_fiber (some f) g = some f
first_fiber none g = g

-- `errors.AsType[*fiber.Error](err)`
abbrev pub as_fiber : Err → Option (ℕ × String)
as_fiber (fiber c m) = some (c, m)
as_fiber (wrap s e) = as_fiber e
as_fiber (both d e) = first_fiber (as_fiber d) (as_fiber e)
as_fiber (detail e s) = as_fiber e
as_fiber (sentinel s) = none
as_fiber (foreign k s) = none
as_fiber (pg p) = none

abbrev pub as_response : ℕ × String → Response
as_response (status, msg) = error_response status msg

abbrev pub fiber_or : Option (ℕ × String) → ℕ × String → Response
fiber_or (some f) e = as_response f
fiber_or none e = as_response e

unfoldable pub handle_error : Err → Response
unfolding http_error_from_domain
handle_error e = fiber_or (as_fiber e) (http_error_from_domain e)

-- What the client gets when a handler panics.
abbrev pub recovered : Response
recovered = error_response 500 internal_server_error
