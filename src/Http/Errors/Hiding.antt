-- ===== src/Http/Errors/Hiding.antt =====
-- What a client sees of an error that is not the client's.
use notes_microservices.Prelude.{◌≡◌, ◌⊎◌, none, arith}
use notes_microservices.Failure.{Err, message}
use notes_microservices.Http.{error_response}
use notes_microservices.Http.Errors.{handle_error, as_fiber, internal_server_error}

-- Unless a handler made the error itself, the client sees its text only under a status of the client's
-- own mistakes, 400, 401, 404 or 409; any other error is a 503 or a 500 with a fixed text.
pub only_client_errors_shown :
    (e : Err)
    → as_fiber e ≡ none
    → ((handle_error e ≡ error_response 400 (message e))
        ⊎ (handle_error e ≡ error_response 401 (message e)))
      ⊎ ((handle_error e ≡ error_response 404 (message e))
          ⊎ (handle_error e ≡ error_response 409 (message e)))
      ⊎ ((handle_error e ≡ error_response 503 "service temporarily unavailable")
          ⊎ (handle_error e ≡ error_response 500 internal_server_error))
unfolding handle_error
only_client_errors_shown e unmade = ground arith
