-- ===== src/Rpc/Access.antt =====
-- Who calls: `extractBearerToken` of internal/adapters/grpc/helpers.go, `NewUnaryAuthInterceptor` and
-- `userIDFromContext` of internal/adapters/grpc/interceptor.go, and the context keys of
-- internal/authctx/authctx.go.
pub mod Protected
pub mod Header
use notes_microservices.Prelude.{
  String, Bool, not, Option, none, some, List, [], ◌∷◌, any, str_eq, cut, trim_space, if◌then◌else◌,
}
use notes_microservices.Failure.{
  sentinel, text, unauthorized, metadata_not_found, auth_header_not_found,
}
use notes_microservices.Action.{Result, ok, err}
use notes_microservices.Ports.{TokenService}
use notes_microservices.Rpc.{Rpc, refuse, code_unauthenticated}

-- What a handler reads of its context: the values of the `authorization` key of the incoming
-- metadata, if there is metadata, and the user id, "" when none is set.
pub record Context : Type 0 where
  pub authorization : Option (List String)
  pub user_id : String

-- `authctx.WithUserID`
abbrev pub with_user_id : Context → String → Context
with_user_id ctx id = record ctx { user_id = id }

-- What follows `strings.Cut`. `equal_fold` is `strings.EqualFold`.
abbrev pub bearer : (String → String → Bool) → Option (String × String) → Result String
bearer equal_fold none = err (sentinel auth_header_not_found)
bearer equal_fold (some (scheme, token)) =
    if not (equal_fold scheme "Bearer")
    then err (sentinel auth_header_not_found)
    else if str_eq (trim_space token) ""
    then err (sentinel auth_header_not_found)
    else ok (trim_space token)

unfoldable pub extract_bearer_token :
    (String → String → Bool) → Option (List String) → Result String
extract_bearer_token equal_fold none = err (sentinel metadata_not_found)
extract_bearer_token equal_fold (some []) = err (sentinel auth_header_not_found)
extract_bearer_token equal_fold (some (value ∷ values)) = bearer equal_fold (cut 32 value)

module _ {S : Type 0} {A : Type 0} where
  abbrev pub refuse_unauthorized : Rpc S A
  refuse_unauthorized = refuse code_unauthenticated (text unauthorized)

  -- `userIDFromContext`, and the handler's return of its error.
  abbrev pub with_caller : Context → (String → Rpc S A) → Rpc S A
  with_caller ctx k = if not (str_eq ctx.user_id "") then k ctx.user_id else refuse_unauthorized

  abbrev pub authenticated : Result String → (String → Rpc S A) → Rpc S A
  authenticated (err e) k s = refuse_unauthorized s
  authenticated (ok a) k s = k a s

  -- The interceptor around a handler of the method `full_method`.
  unfoldable pub unary_auth_interceptor :
      (String → String → Bool)
      → TokenService S
      → List String
      → String
      → (Context → Rpc S A)
      → Context
      → Rpc S A
  unfolding extract_bearer_token
  unary_auth_interceptor equal_fold token_svc protected full_method handler ctx s =
      if not (any (str_eq full_method) protected)
      then handler ctx s
      else authenticated (extract_bearer_token equal_fold ctx.authorization)
          (λ token s.
            let (user_id, s') = token_svc.validate_access_token token s in
            authenticated user_id (λ id. handler (with_user_id ctx id)) s')
          s
