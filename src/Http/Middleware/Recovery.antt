-- ===== src/Http/Middleware/Recovery.antt =====
-- What the client and the log get of a request that is answered, fails or panics.
mod Tests
use notes_microservices.Prelude.{◌≡◌, ◌≢◌, refl, String, none, some, List, [], ◌∷◌, arith, eq_iff}
use notes_microservices.Failure.{wrap}
use notes_microservices.Domain.{Time}
use notes_microservices.Rpc.RequestId.{request_id_middleware}
use notes_microservices.Logger.{
  string, with_fields, new_request_id_context, Zap, Context, log, request_id_from_context,
}
use notes_microservices.Logger.Lines.{LogLevel, at_info, at_error, Adds, write-Adds, Adds-trans}
use notes_microservices.Http.{Response, error_response}
use notes_microservices.Http.Errors.{internal_server_error}
use notes_microservices.Http.Middleware.{
  Outcome, returned, panicked, Exchange, FiberHandler, Request, with_request_id_header,
  with_middlewares, completed, recover_from, respond_to_panic, logger_middleware,
  recovery_middleware,
}

-- What comes out of the middlewares for what the handler came to.
abbrev pub outer_outcome : Outcome → Outcome
outer_outcome (returned none) = returned none
outer_outcome (returned (some e)) = returned (some (wrap "request processing" e))
outer_outcome (panicked value) = returned none

abbrev pub answer_of : Outcome → Response → Response
answer_of (returned e) response = response
answer_of (panicked value) response = error_response 500 internal_server_error

-- A panic is logged twice, and as a request that was completed.
abbrev pub levels_of : Outcome → List LogLevel
levels_of (returned none) = at_info ∷ []
levels_of (returned (some e)) = at_error ∷ []
levels_of (panicked value) = at_error ∷ at_info ∷ []

module _ {Z S : Type 0} where
  -- What the client gets, and what is logged, when a handler has come to `outcome` and left `seen`.
  abbrev IsClosed : Context Z → Outcome → Exchange Z S → Outcome × Exchange Z S → Type 0
  IsClosed ctx outcome seen (outcome', x') =
      (outcome' ≡ outer_outcome outcome)
      × (x'.response ≡ answer_of outcome seen.response)
      × (x'.state ≡ seen.state)
      × Adds (request_id_from_context (some ctx)) (levels_of outcome) seen.lines x'.lines

  closed :
      (stack : String) (core attached : Z) (ctx : Context Z) (start : Time) (outcome : Outcome)
      (seen : Exchange Z S)
      → request_id_from_context (some ctx) ≢ ""
      → let (outcome', seen') = recover_from stack none (some core) ctx outcome seen in
        IsClosed ctx outcome seen (completed (some attached) ctx start outcome' seen')
  unfolding completed recover_from respond_to_panic
  closed stack core attached ctx start (returned none) seen filled =
      (refl, refl, refl, write-Adds at_info attached ctx _ _ seen.lines filled)
  closed stack core attached ctx start (returned (some e)) seen filled =
      (refl, refl, refl, write-Adds at_error attached ctx _ _ seen.lines filled)
  closed stack core attached ctx start (panicked value) seen filled = (
    refl,
    refl,
    refl,
    Adds-trans _ (at_error ∷ []) (at_info ∷ []) seen.lines _ _
        (write-Adds at_error core ctx _ _ seen.lines filled)
        (write-Adds at_info attached ctx _ _ _ filled),
  )

module _ {Z S : Type 0} (zap : Zap Z) (pid new_id header : String) (req : Request) (stack : String)
    (next : FiberHandler Z S) where
  -- What the first handler behind the middlewares is called with, where the logger has been set up.
  abbrev entered : Exchange Z S → Exchange Z S
  entered = with_request_id_header pid new_id header

  entered-filled :
      (x : Exchange Z S) → new_id ≢ "" → request_id_from_context (some (entered x).context) ≢ ""
  unfolding with_request_id_header request_id_middleware new_request_id_context
      request_id_from_context
  entered-filled x made = ground (arith, eq_iff header "", eq_iff new_id "")

  log-entered :
      (x : Exchange Z S)
      → log zap (some (entered x).context) x.global_logger
        ≡ log zap (some x.context) x.global_logger
  unfolding with_request_id_header request_id_middleware new_request_id_context log
  log-entered x = refl

  settled :
      (x : Exchange Z S) (core : Z)
      → log zap (some x.context) x.global_logger ≡ (some core, x.global_logger)
      → let ctx = (entered x).context in
        let (outcome, seen) = next (entered x) in
        let (outcome', seen') = recover_from stack none (some core) ctx outcome seen in
        let fields =
          string "path" req.path ∷ string "method" req.method ∷ string "ip" req.ip ∷ [] in
        with_middlewares zap pid new_id header req stack none next x
        ≡ completed (some (zap.attach core fields)) ctx x.now outcome' seen'
  unfolding with_middlewares logger_middleware recovery_middleware with_fields
  settled x core set_up = rw (log-entered x, set_up, log-entered x, set_up) refl

  -- No panic of a handler goes past the middlewares: the client gets a 500 with a fixed text for it, and
  -- else the handler's own response, with its error wrapped and what the handler made of the rest of
  -- the state. The handler runs in the context with the request's id. The request leaves one line
  -- behind the handler's, and an error before it after a panic, each with the request's id, if a logger
  -- with a core is set, in the context or globally, a new request id is not empty, and the response to
  -- a panic can be written.
  pub panics_answered :
      (x : Exchange Z S) (core : Z)
      → log zap (some x.context) x.global_logger ≡ (some core, x.global_logger)
      → new_id ≢ ""
      → let (outcome, seen) = next (entered x) in
        let (outcome', x') = with_middlewares zap pid new_id header req stack none next x in
        (outcome' ≡ outer_outcome outcome)
        × (x'.response ≡ answer_of outcome seen.response)
        × (x'.state ≡ seen.state)
        × Adds
            (request_id_from_context (some (entered x).context))
            (levels_of outcome)
            seen.lines
            x'.lines
  panics_answered x core set_up made =
      let (outcome, seen) = next (entered x) in
      rw (settled x core set_up)
        (closed stack core _ (entered x).context x.now outcome seen (entered-filled x made))
