-- ===== src/Http/Routes.antt =====
-- internal/adapters/http/routes.go, and `NewRequestIDMiddleware` of internal/adapters/http/middleware.go.
-- How fiber matches a path and reads a body is done: a request comes as a `Call`. The limiters of
-- fiber are the parameter `limited`, which counts the calls of a route in the state.
pub mod Guarded
mod Tests
use notes_microservices.Prelude.{
  ℕ, ℤ, String, Bool, true, false, Option, none, some, str_eq, if◌then◌else◌,
}
use notes_microservices.Failure.{Err}
use notes_microservices.Action.{Action, Result, ok, err}
use notes_microservices.Http.{Response, Body, json_response, error_response, status_body}
use notes_microservices.Http.Request.{auth_middleware}
use notes_microservices.Http.Auth.{AuthService, RegisterRequest, LoginRequest}
use notes_microservices.Http.Auth
use notes_microservices.Http.Notes.{NotesService, CreateNoteRequest, UpdateNoteRequest}
use notes_microservices.Http.Notes

-- The routes with a limiter, and how many calls each lets through in a minute.
pub data Limiter : Type 0 where
  register_limiter login_limiter refresh_limiter logout_limiter : Limiter

abbrev pub rate_limit : Limiter → ℕ
rate_limit register_limiter = 5
rate_limit login_limiter = 10
rate_limit refresh_limiter = 20
rate_limit logout_limiter = 20

-- The routes of the table, with what their handlers read of the request. A body that does not bind is
-- `none`; `guarded_other` is another path below
-- the groups of the user and of the notes, and `other` every other one.
pub data Call : Type 0 where
  health ready other guarded_other : Call
  register : Option RegisterRequest → Call
  login : Option LoginRequest → Call
  refresh logout : Option String → Call
  profile : Call
  create_note : Option CreateNoteRequest → Call
  get_note delete_note : String → Call
  list_notes : String → String → Call
  update_note replace_note : String → Option UpdateNoteRequest → Call

abbrev pub ready_response : Result (Unit {0}) → Response
ready_response (ok u) = json_response 200 (status_body "ready")
ready_response (err e) = json_response 503 (status_body "unavailable")

module _ {S : Type 0} (equal_fold : String → String → Bool) (atoi : String → Option ℤ)
    (limited : Limiter → ℕ → S → Bool × S) (ping : Action S (Unit {0})) (auth : AuthService S)
    (notes : NotesService S) where
  -- A route behind its limiter.
  abbrev pub within_limit : Limiter → (S → Response × S) → S → Response × S
  within_limit l next s =
      let (reached, s') = limited l (rate_limit l) s in
      if reached then (error_response 429 "too many requests", s') else next s'

  -- A route behind the auth middleware.
  abbrev pub with_auth : String → (String → S → Response × S) → S → Response × S
  with_auth auth_header next =
      auth_middleware equal_fold auth_header next (λ response s. (response, s))

  -- The route of a call with the value of its `Authorization` header.
  unfoldable pub route : String → Call → S → Response × S
  unfolding auth_middleware
  route auth_header health s = (json_response 200 (status_body "ok"), s)
  route auth_header ready s = let (r, s') = ping s in (ready_response r, s')
  route auth_header other s = (error_response 404 "route not found", s)
  route auth_header guarded_other s =
      with_auth auth_header (λ token s. (error_response 404 "route not found", s)) s
  route auth_header (register req) s = within_limit register_limiter (Auth.register auth req) s
  route auth_header (login req) s = within_limit login_limiter (Auth.login auth req) s
  route auth_header (refresh token) s =
      within_limit refresh_limiter (Auth.refresh_tokens auth token) s
  route auth_header (logout token) s = within_limit logout_limiter (Auth.logout auth token) s
  route auth_header profile s = with_auth auth_header (Auth.get_profile auth) s
  route auth_header (create_note req) s =
      with_auth auth_header (λ token. Notes.create_note notes token req) s
  route auth_header (get_note note_id) s =
      with_auth auth_header (λ token. Notes.get_note notes token note_id) s
  route auth_header (list_notes limit offset) s =
      with_auth auth_header (λ token. Notes.list_notes notes atoi token limit offset) s
  route auth_header (update_note note_id req) s =
      with_auth auth_header (λ token. Notes.update_note notes token note_id req) s
  route auth_header (replace_note note_id req) s =
      with_auth auth_header (λ token. Notes.replace_note notes token note_id req) s
  route auth_header (delete_note note_id) s =
      with_auth auth_header (λ token. Notes.delete_note notes token note_id) s
