-- ===== src/Http/Errors/Tests.antt =====
-- The response to a wrapped error, and to one of a driver.
use notes_microservices.Prelude.{◌≡◌, refl, ◌⊎◌}
use notes_microservices.Failure.{Err, sentinel, foreign, other, wrap, message, note_not_found, text}
use notes_microservices.Http.{error_response}
use notes_microservices.Http.Errors.{handle_error, internal_server_error}
use notes_microservices.Http.Errors.Hiding.{only_client_errors_shown}

wrapped_not_found :
    handle_error (wrap "get note" (sentinel note_not_found))
    ≡ error_response 404 "get note: note not found"
unfolding handle_error text
wrapped_not_found = refl

abbrev refused_connection : Err
refused_connection = wrap "users.FindByEmail" (foreign other "dial tcp 10.0.0.7:5432: refused")

only_client_errors_shown_example :
    ((handle_error refused_connection ≡ error_response 400 (message refused_connection))
      ⊎ (handle_error refused_connection ≡ error_response 401 (message refused_connection)))
    ⊎ ((handle_error refused_connection ≡ error_response 404 (message refused_connection))
        ⊎ (handle_error refused_connection ≡ error_response 409 (message refused_connection)))
    ⊎ ((handle_error refused_connection ≡ error_response 503 "service temporarily unavailable")
        ⊎ (handle_error refused_connection ≡ error_response 500 internal_server_error))
only_client_errors_shown_example = only_client_errors_shown refused_connection refl
