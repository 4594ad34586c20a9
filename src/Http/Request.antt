-- ===== src/Http/Request.antt =====
-- What the handlers read: `NewAuthMiddleware` of internal/adapters/http/middleware.go, `queryInt` of
-- internal/adapters/http/helpers.go and `requireTokenAndNoteID` of internal/adapters/http/notes.go.
use notes_microservices.Prelude.{
  ℤ, String, Bool, not, ◌||◌, Option, none, some, str_eq, cut, trim_space, is_neg, if◌then◌else◌,
}
use notes_microservices.Failure.{fiber, text, no_auth_header, invalid_auth_format}
use notes_microservices.Action.{Result, ok, err}
use notes_microservices.Http.{Response, error_response}

abbrev pub authorized :
    (String → String → Bool)
    → Option (String × String)
    → {A : Type 0} → (String → A)
    → (Response → A)
    → A
authorized equal_fold none next refuse = refuse (error_response 401 (text invalid_auth_format))
authorized equal_fold (some (scheme, token)) next refuse =
    if not (equal_fold scheme "Bearer") || str_eq (trim_space token) ""
    then refuse (error_response 401 (text invalid_auth_format))
    else next (trim_space token)

-- `next` goes on with the token in the context. `equal_fold` is `strings.EqualFold`.
unfoldable pub auth_middleware :
    (String → String → Bool) → String → {A : Type 0} → (String → A) → (Response → A) → A
auth_middleware equal_fold auth_header next refuse =
    if str_eq auth_header ""
    then refuse (error_response 401 (text no_auth_header))
    else authorized equal_fold (cut 32 auth_header) next refuse

abbrev parsed_or : ℤ → Option ℤ → ℤ
parsed_or def none = def
parsed_or def (some num) = if is_neg num then def else num

-- `atoi` is `strconv.Atoi`.
unfoldable pub query_int : (String → Option ℤ) → String → ℤ → ℤ
query_int atoi raw def = if str_eq raw "" then def else parsed_or def (atoi raw)

unfoldable pub require_token_and_note_id : String → String → Result (String × String)
require_token_and_note_id token note_id =
    if str_eq token ""
    then err (fiber 401 (text no_auth_header))
    else if str_eq note_id ""
    then err (fiber 400 "invalid note id")
    else ok (token, note_id)
