-- ===== src/Logger/Values.antt =====
-- The values of a context, put in and read.
use notes_microservices.Prelude.{◌≡◌, ◌≢◌, refl, String, Option, some, arith, eq_iff}
use notes_microservices.Logger.{
  Context, new_request_id_context, request_id_from_context, with_bearer_token, bearer_token_from,
  with_user_id, user_id_from,
}

module _ {Z : Type 0} where
  -- A request id is read back from a context it was put into; in place of an empty one there is the
  -- process id, so that no line is logged without an id.
  pub request_id-kept :
      (pid id : String) (ctx : Option (Context Z))
      → (id ≢ "" → request_id_from_context (some (new_request_id_context pid ctx id)) ≡ id)
        × (pid ≢ "" → request_id_from_context (some (new_request_id_context pid ctx id)) ≢ "")
  unfolding request_id_from_context new_request_id_context
  request_id-kept pid id ctx =
      (λ given. ground (arith, eq_iff id ""), λ given. ground (arith, eq_iff id "", eq_iff pid ""))

  -- The user id of a context, its bearer token and its request id are independent of each other.
  pub values-apart :
      (ctx : Context Z) (token user : String)
      → (bearer_token_from (some (with_bearer_token (with_user_id ctx user) token)) ≡ token)
        × (user_id_from (some (with_bearer_token (with_user_id ctx user) token)) ≡ user)
        × (request_id_from_context (some (with_bearer_token (with_user_id ctx user) token))
            ≡ request_id_from_context (some ctx))
  unfolding request_id_from_context with_bearer_token with_user_id bearer_token_from user_id_from
  values-apart ctx token user = (refl, refl, refl)
