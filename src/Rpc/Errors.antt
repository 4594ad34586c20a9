-- ===== src/Rpc/Errors.antt =====
-- Errors on the wire: `authStatusFromError`, `notesStatusFromError`, `statusMessageError` and
-- `statusToDomain` of internal/adapters/grpc/helpers.go.
pub mod RoundTrip
use notes_microservices.Prelude.{
  String, Bool, true, false, ◌||◌, Option, none, some, List, [], ◌∷◌, find, str_eq, if◌then◌else◌,
}
use notes_microservices.Failure.{
  Err, Sentinel, sentinel, both, detail, is, text, empty_user_id, invalid_email, empty_username,
  password_too_short, password_too_weak, invalid_params, user_not_found, invalid_credentials,
  email_already_exists, user_already_exists, invalid_refresh_token, revoked_refresh_token,
  invalid_jwt_token, expired_jwt_token, unauthorized, note_not_found, note_not_found_or_not_owned,
  empty_note_title, note_content_too_large, note_title_too_long, username_too_long,
  service_unavailable, deadline_exceeded, backend_status,
}
use notes_microservices.Rpc.{
  Code, RpcError, status, unknown, code_canceled, code_unknown, code_invalid_argument,
  code_deadline_exceeded, code_not_found, code_already_exists, code_permission_denied,
  code_resource_exhausted, code_failed_precondition, code_aborted, code_out_of_range,
  code_unimplemented, code_internal, code_unavailable, code_data_loss, code_unauthenticated,
}

-- `status.Error(c, s.Error())`
abbrev pub as_status : Code → Sentinel → RpcError
as_status c s = status c (text s)

abbrev pub internal_error : RpcError
internal_error = status code_internal "internal service error"

-- The `switch`, where `asked s` is `errors.Is(err, s)`.
abbrev pub notes_status_of : (Sentinel → Bool) → RpcError
notes_status_of asked =
    if asked unauthorized || asked invalid_jwt_token || asked expired_jwt_token
    then as_status code_unauthenticated unauthorized
    else if asked note_not_found
    then as_status code_not_found note_not_found
    else if asked note_not_found_or_not_owned
    then as_status code_not_found note_not_found_or_not_owned
    else if asked empty_note_title
        || asked note_title_too_long
        || asked note_content_too_large
        || asked empty_user_id
        || asked invalid_params
    then (if asked empty_note_title
        then as_status code_invalid_argument empty_note_title
        else if asked note_title_too_long
        then as_status code_invalid_argument note_title_too_long
        else if asked note_content_too_large
        then as_status code_invalid_argument note_content_too_large
        else if asked empty_user_id
        then as_status code_invalid_argument empty_user_id
        else as_status code_invalid_argument invalid_params)
    else internal_error

unfoldable pub notes_status_from_error : Err → RpcError
notes_status_from_error e = notes_status_of (is e)

-- The `switch`, where `asked s` is `errors.Is(err, s)`.
abbrev pub auth_status_of : (Sentinel → Bool) → RpcError
auth_status_of asked =
    if asked invalid_credentials
    then as_status code_unauthenticated invalid_credentials
    else if asked invalid_refresh_token
    then as_status code_unauthenticated invalid_refresh_token
    else if asked revoked_refresh_token
    then as_status code_unauthenticated revoked_refresh_token
    else if asked email_already_exists
    then as_status code_already_exists email_already_exists
    else if asked user_already_exists
    then as_status code_already_exists user_already_exists
    else if asked user_not_found
    then as_status code_not_found user_not_found
    else if asked invalid_email
    then as_status code_invalid_argument invalid_email
    else if asked empty_username
    then as_status code_invalid_argument empty_username
    else if asked username_too_long
    then as_status code_invalid_argument username_too_long
    else if asked empty_user_id
    then as_status code_invalid_argument empty_user_id
    else if asked password_too_short
    then as_status code_invalid_argument password_too_short
    else if asked password_too_weak
    then as_status code_invalid_argument password_too_weak
    else internal_error

unfoldable pub auth_status_from_error : Err → RpcError
auth_status_from_error e = auth_status_of (is e)

-- The values of the map `statusMessageErrors`; each stands under its own text.
abbrev pub status_message_errors : List Sentinel
status_message_errors =
    invalid_credentials ∷ invalid_refresh_token ∷ revoked_refresh_token ∷ email_already_exists
    ∷ user_already_exists ∷ user_not_found ∷ note_not_found ∷ note_not_found_or_not_owned
    ∷ unauthorized ∷ invalid_email ∷ empty_username ∷ password_too_short ∷ password_too_weak
    ∷ empty_note_title ∷ note_content_too_large ∷ note_title_too_long ∷ username_too_long ∷ []

unfoldable pub status_message_error : String → Option Sentinel
status_message_error m = find (λ s. str_eq (text s) m) status_message_errors

-- The `switch` on the code. `code_name` is `codes.Code.String`.
abbrev pub code_to_domain : (Code → String) → Code → String → Err → Err
code_to_domain code_name code_unavailable m not_found = sentinel service_unavailable
code_to_domain code_name code_deadline_exceeded m not_found = sentinel deadline_exceeded
code_to_domain code_name code_unauthenticated m not_found = sentinel unauthorized
code_to_domain code_name code_not_found m not_found = not_found
code_to_domain code_name code_already_exists m not_found = sentinel user_already_exists
code_to_domain code_name code_invalid_argument m not_found = detail (sentinel invalid_params) m
code_to_domain code_name c m not_found = detail (sentinel backend_status) (code_name c)

abbrev pub mapped_or_by_code : Option Sentinel → Err → Err
mapped_or_by_code (some s) e = sentinel s
mapped_or_by_code none e = e

-- `statusToDomain` of an error that is not nil.
unfoldable pub status_to_domain : (Code → String) → RpcError → Err → Err
unfolding status_message_error
status_to_domain code_name (unknown e) not_found = both (sentinel service_unavailable) e
status_to_domain code_name (status c m) not_found =
    mapped_or_by_code (status_message_error m) (code_to_domain code_name c m not_found)
