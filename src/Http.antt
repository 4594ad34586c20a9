-- ===== src/Http.antt =====
-- internal/adapters/http: the HTTP side of the gateway. A handler gets what it reads of the request and
-- returns the response; that the response cannot be written is left out.
pub mod Errors
pub mod Request
pub mod Middleware
pub mod Auth
pub mod Notes
pub mod Routes
use notes_microservices.Prelude.{ℕ, ℤ, String, List}
use notes_microservices.Domain.{Note, User, TokenPair}

pub data Body : Type 0 where
  error_body message_body status_body : String → Body
  token_body : TokenPair → Body
  profile_body : User → Body
  note_body : Note → Body
  list_body : List Note → ℤ → ℤ → ℤ → Body
  no_body : Body

pub record Response : Type 0 where
  pub status : ℕ
  pub body : Body

abbrev pub json_response : ℕ → Body → Response
json_response status body = record { status = status; body = body }

abbrev pub error_response : ℕ → String → Response
error_response status msg = json_response status (error_body msg)
