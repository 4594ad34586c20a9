-- ===== src/Rpc/RequestId.antt =====
-- `withRequestID` and `extractRequestIDFromMetadata` of internal/adapters/grpc/helpers.go, and
-- `NewRequestIDMiddleware` of internal/adapters/http/middleware.go. Incoming metadata is the values of
-- a key; `new_id` is what `logger.NewRequestID` makes, and `pid` the process id.
use notes_microservices.Prelude.{
  ◌≢◌, String, not, Option, none, some, List, [], ◌∷◌, str_eq, trim_space, arith, eq_iff,
  if◌then◌else◌,
}
use notes_microservices.Logger.{
  Context, request_id_from_context, new_request_id_context, background,
}

abbrev first_value : List (List String) → String
first_value [] = ""
first_value ([] ∷ rest) = first_value rest
first_value ((value ∷ values) ∷ rest) = trim_space value

unfoldable pub extract_request_id_from_metadata : Option (String → List String) → String
extract_request_id_from_metadata none = ""
extract_request_id_from_metadata (some md) = first_value (md "x-request-id" ∷ md "request-id" ∷ [])

module _ {Z : Type 0} (pid new_id : String) where
  abbrev present : Option (Context Z) → Context Z
  present none = background
  present (some ctx) = ctx

  unfoldable pub with_request_id : Option (String → List String) → Option (Context Z) → Context Z
  unfolding request_id_from_context extract_request_id_from_metadata new_request_id_context
  with_request_id md ctx =
      let own = request_id_from_context (some (present ctx)) in
      let sent = extract_request_id_from_metadata md in
      if not (str_eq own "")
      then present ctx
      else if not (str_eq sent "")
      then new_request_id_context pid (some (present ctx)) sent
      else new_request_id_context pid (some (present ctx)) new_id

  -- The request id of the middleware of the gateway: the header's, or a new one. The response's header
  -- is set to it too.
  unfoldable pub request_id_middleware : String → Option (Context Z) → Context Z × String
  unfolding new_request_id_context
  request_id_middleware header ctx =
      let id = if str_eq header "" then new_id else header in
      (new_request_id_context pid ctx id, id)

  -- A call of a service always has a request id: the context's, else the metadata's, else a new one.
  pub with_request_id-filled :
      (md : Option (String → List String)) (ctx : Option (Context Z))
      → new_id ≢ ""
      → request_id_from_context (some (with_request_id md ctx)) ≢ ""
  unfolding with_request_id request_id_from_context new_request_id_context
  with_request_id-filled md ctx made =
      let sent = extract_request_id_from_metadata md in
      let own = request_id_from_context (some (present ctx)) in
      ground (arith, eq_iff own "", eq_iff sent "", eq_iff new_id "")
