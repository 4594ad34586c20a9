-- ===== src/Ports.antt =====
-- internal/ports: the interfaces between the use cases and the adapters, over the state `S` that an
-- adapter keeps. A pointer result is nil exactly when the error is not, as in every adapter here.
use notes_microservices.Prelude.{ℕ, String, Bool, Option, List, ℤ}
use notes_microservices.Action.{Action}
use notes_microservices.Domain.{Time, Note, User, TokenPair, RefreshToken}

-- internal/ports/repository.go; a list comes with the total count.
pub record NoteRepository (S : Type 0) : Type 0 where
  pub list_by_user_id : String → ℕ → ℕ → Action S (List Note × ℕ)
  pub get_by_id : String → String → Action S Note
  pub create : Note → Action S Note
  pub update : Note → Action S (Unit {0})
  pub delete : String → String → Action S (Unit {0})

pub record UserRepository (S : Type 0) : Type 0 where
  pub create : User → Action S User
  pub find_by_id : String → Action S User
  pub find_by_email : String → Action S User
  pub update : User → Action S User
  pub delete : String → Action S (Unit {0})

pub record TokenRepository (S : Type 0) : Type 0 where
  pub store_refresh_token : RefreshToken → Action S (Unit {0})
  pub find_by_token : String → Action S RefreshToken
  pub revoke_token : String → Action S (Unit {0})
  pub consume_active_token : String → Action S RefreshToken
  pub rotate_refresh_token : String → Option RefreshToken → Action S RefreshToken
  pub revoke_all_user_tokens : String → Action S (Unit {0})
  pub cleanup_expired_tokens : Action S (Unit {0})
  pub find_user_tokens : String → Action S (List RefreshToken)

-- internal/ports/services.go; a time to live is a signed duration.
pub record Cache (S : Type 0) : Type 0 where
  pub set : String → String → ℤ → Action S (Unit {0})
  pub get : String → Action S String
  pub delete : String → Action S (Unit {0})
  pub ping : Action S (Unit {0})
  pub close : Action S (Unit {0})

pub record PasswordService (S : Type 0) : Type 0 where
  pub hash : String → Action S String
  pub verify : String → String → Action S Bool

-- A generated token comes with the time at which it expires.
pub record TokenService (S : Type 0) : Type 0 where
  pub generate_access_token : String → String → Action S (String × Time)
  pub generate_refresh_token : String → Action S (String × Time)
  pub validate_access_token : String → Action S String

-- internal/ports/backend.go: the services as the gateway sees them, by access token. Numbers are
-- Go's signed `int`. `close` releases the connection.
pub record AuthBackend (S : Type 0) : Type 0 where
  pub register : String → String → String → Action S TokenPair
  pub login : String → String → Action S TokenPair
  pub refresh_tokens : String → Action S TokenPair
  pub logout : String → Action S (Unit {0})
  pub get_user_profile : String → Action S User
  pub close : Action S (Unit {0})

pub record NotesBackend (S : Type 0) : Type 0 where
  pub create_note : String → String → String → Action S Note
  pub get_note : String → String → Action S Note
  pub list_notes : String → ℤ → ℤ → Action S (List Note × ℤ)
  pub update_note : String → String → Option String → Option String → Action S Note
  pub delete_note : String → String → Action S (Unit {0})
  pub close : Action S (Unit {0})

-- internal/ports/usecases.go
pub record AuthUseCase (S : Type 0) : Type 0 where
  pub register : String → String → String → Action S TokenPair
  pub login : String → String → Action S TokenPair
  pub refresh_tokens : String → Action S TokenPair
  pub logout : String → Action S (Unit {0})

pub record UserUseCase (S : Type 0) : Type 0 where
  pub get_user_profile : String → Action S User

pub record NoteUseCase (S : Type 0) : Type 0 where
  pub create_note : String → String → String → Action S Note
  pub get_note : String → String → Action S Note
  pub list_notes : String → ℤ → ℤ → Action S (List Note × ℕ)
  pub update_note : String → String → Option String → Option String → Action S Note
  pub delete_note : String → String → Action S (Unit {0})
