-- ===== src/Rpc/Tests.antt =====
-- Errors on the way to the gateway.
use mathlib.Core.List.{Memᴰ}
use notes_microservices.Prelude.{
  ℕ, ◌+◌, String, Bool, str_eq, some, [], ◌∷◌, trim_space, cut, if◌then◌else◌, ◌≡◌, refl,
}
use notes_microservices.Failure.{
  token_generation, invalid_jwt_token, Err, sentinel, wrap, itself, under, user_not_found,
  invalid_refresh_token, note_not_found,
}
use notes_microservices.Action.{ok, err}
use notes_microservices.Ports.{TokenService}
use notes_microservices.Rpc.Clients.{bearer_of}
use notes_microservices.Rpc.{Rpc, Reply, reply}
use notes_microservices.Rpc.Access.Header.{extract_bearer_token-bearer_of}
use notes_microservices.Rpc.Access.{
  Context, with_user_id, extract_bearer_token, unary_auth_interceptor,
}
use notes_microservices.Rpc.Access.Protected.{answered_is_authenticated}
use notes_microservices.Rpc.Errors.{
  auth_status_from_error, notes_status_from_error, status_to_domain,
}
use notes_microservices.Rpc.Errors.RoundTrip.{errors_survive}

abbrev refused : Err
refused = wrap "refresh" (sentinel invalid_refresh_token)

abbrev missing : Err
missing = wrap "get note" (sentinel note_not_found)

errors_survive_example :
    (status_to_domain (λ c. "Internal") (auth_status_from_error refused) (sentinel user_not_found)
      ≡ sentinel invalid_refresh_token)
    × (status_to_domain
          (λ c. "Internal")
          (notes_status_from_error missing)
          (sentinel user_not_found)
        ≡ sentinel note_not_found)
errors_survive_example =
    errors_survive (λ c. "Internal") (sentinel user_not_found) invalid_refresh_token note_not_found
      refused missing (Memᴰ.tail (Memᴰ.head refl)) (Memᴰ.tail (Memᴰ.head refl))
      (under "refresh" itself) (under "get note" itself)

abbrev equal_fold : String → String → Bool
equal_fold s t = str_eq s t

-- The state counts the validations; the one good token is bob's.
abbrev token_svc : TokenService ℕ
token_svc = record {
  generate_access_token = λ id username s. (err (sentinel token_generation), s);
  generate_refresh_token = λ id s. (err (sentinel token_generation), s);
  validate_access_token = λ token s.
      (if str_eq token "good" then ok "bob" else err (sentinel invalid_jwt_token), s + 1);
}

abbrev whoami : Context → Rpc ℕ String
whoami ctx s = (reply ctx.user_id, s)

abbrev request : Context
request = record { authorization = some ("Bearer good" ∷ []); user_id = "" }

abbrev answer_to : Context → Reply String × ℕ
answer_to ctx =
    unary_auth_interceptor equal_fold token_svc ("GetUserProfile" ∷ []) "GetUserProfile" whoami ctx
      0

request_test : (answer_to request).0 ≡ reply "bob"
unfolding unary_auth_interceptor extract_bearer_token trim_space cut
request_test = refl

answered_is_authenticated_example :
    (token : String) × (id : String) × (extract_bearer_token equal_fold (some ("Bearer good" ∷ []))
      ≡ ok token)
    × ((token_svc.validate_access_token token 0).0 ≡ ok id)
    × (answer_to request
        ≡ whoami (with_user_id request id) (token_svc.validate_access_token token 0).1)
answered_is_authenticated_example =
    answered_is_authenticated equal_fold token_svc ("GetUserProfile" ∷ []) "GetUserProfile" whoami
      request 0 "bob" refl request_test

extract_bearer_token-bearer_of_example :
    extract_bearer_token str_eq (some (bearer_of " abc" ∷ [])) ≡ ok (trim_space " abc")
unfolding trim_space
extract_bearer_token-bearer_of_example = extract_bearer_token-bearer_of str_eq refl " abc"
