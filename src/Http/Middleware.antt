-- ===== src/Http/Middleware.antt =====
-- `NewLoggerMiddleware` and `NewRecoveryMiddleware` of internal/adapters/http/middleware.go, and the
-- three `app.Use` of internal/adapters/http/routes.go. A handler of fiber returns an error or panics.
pub mod Recovery
use notes_microservices.Prelude.{ℕ, ℤ, String, Option, none, some, List, [], ◌∷◌, ◌++◌, ◌-◌}
use notes_microservices.Failure.{Err, wrap, message}
use notes_microservices.Domain.{Time}
use notes_microservices.Logger.{
  Context, Zap, Field, string, int, duration, error_field, log, with_fields,
}
use notes_microservices.Logger.Lines.{Line, log_info, log_error}
use notes_microservices.Http.{Response}
use notes_microservices.Http.Errors.{recovered}
use notes_microservices.Rpc.RequestId.{request_id_middleware}

-- How a handler ends: it returns an error or nil, or panics with a value that prints as a text.
pub data Outcome : Type 0 where
  returned : Option Err → Outcome
  panicked : String → Outcome

-- What a handler reads and writes: the context of the request, the response so far and its header
-- `X-Request-ID`, the global logger, the lines that are logged, the clock (which does not go back, as `time.Since` reads it), and the state `S` of the rest.
pub record Exchange (Z S : Type 0) : Type 0 where
  pub context : Context Z
  pub response : Response
  pub request_id_header : String
  pub global_logger : Option Z
  pub lines : List (Line Z)
  pub now : Time
  pub state : S

-- `fiber.Handler`
abbrev pub FiberHandler : Type 0 → Type 0 → Type 0
FiberHandler Z S = Exchange Z S → Outcome × Exchange Z S

-- What `ctx.Path()`, `ctx.Method()` and `ctx.IP()` say.
pub record Request : Type 0 where
  pub path : String
  pub method : String
  pub ip : String

module _ {Z S : Type 0} where
  -- What the logger middleware does when the handlers after it have ended.
  unfoldable pub completed :
      Option Z → Context Z → Time → Outcome → Exchange Z S → Outcome × Exchange Z S
  completed core request_ctx start (panicked value) x = (panicked value, x)
  completed core request_ctx start (returned none) x =
      let fields = int "status" x.response.status ∷ duration "latency" (x.now - start) ∷ [] in
      let lines = log_info core (some request_ctx) "Request completed" fields x.lines in
      (returned none, record x { lines = lines })
  completed core request_ctx start (returned (some e)) x =
      let fields = int "status" x.response.status ∷ duration "latency" (x.now - start) ∷ [] in
      let lines =
        log_error core (some request_ctx) "Request failed" (fields ++ error_field (message e) ∷ [])
          x.lines in
      (returned (some (wrap "request processing" e)), record x { lines = lines })

  -- The response to a panic. `write_error` is what `JSON` returns; the status is set before it.
  unfoldable pub respond_to_panic : Option Err → Option Z → Context Z → Exchange Z S → Exchange Z S
  respond_to_panic none core request_ctx x = record x { response = recovered }
  respond_to_panic (some e) core request_ctx x =
      let lines =
        log_error core (some request_ctx) "Failed to send error response after panic"
          (error_field (message e) ∷ []) x.lines in
      record x { response = record x.response { status = 500 }; lines = lines }

  -- The deferred function of the recovery middleware, whose result is then nil. `stack` is the text of
  -- `debug.Stack()`.
  unfoldable pub recover_from :
      String → Option Err → Option Z → Context Z → Outcome → Exchange Z S → Outcome × Exchange Z S
  unfolding respond_to_panic
  recover_from stack write_error core request_ctx (returned e) x = (returned e, x)
  recover_from stack write_error core request_ctx (panicked value) x =
      let fields = string "error" value ∷ string "stack" stack ∷ [] in
      let lines = log_error core (some request_ctx) "Server panic" fields x.lines in
      (returned none, respond_to_panic write_error core request_ctx (record x { lines = lines }))

  -- The request id goes into the context and into the header of the response.
  unfoldable pub with_request_id_header : String → String → String → Exchange Z S → Exchange Z S
  unfolding request_id_middleware
  with_request_id_header pid new_id header x =
      let (context, id) = request_id_middleware pid new_id header (some x.context) in
      record x { context = context; request_id_header = id }

module _ {Z S : Type 0} (zap : Zap Z) where
  unfoldable pub logger_middleware : Request → FiberHandler Z S → FiberHandler Z S
  unfolding log with_fields completed
  logger_middleware req next x =
      let (core, pointer) = log zap (some x.context) x.global_logger in
      let fields = string "path" req.path ∷ string "method" req.method ∷ string "ip" req.ip ∷ [] in
      let (outcome, x') = next (record x { global_logger = pointer }) in
      completed (with_fields zap core fields) x.context x.now outcome x'

  unfoldable pub recovery_middleware : String → Option Err → FiberHandler Z S → FiberHandler Z S
  unfolding log recover_from
  recovery_middleware stack write_error next x =
      let (core, pointer) = log zap (some x.context) x.global_logger in
      let (outcome, x') = next (record x { global_logger = pointer }) in
      recover_from stack write_error core x.context outcome x'

  -- The middlewares in the order of SetupRouter.
  unfoldable pub with_middlewares :
      String → String → String → Request → String → Option Err → FiberHandler Z S → FiberHandler Z S
  unfolding logger_middleware recovery_middleware with_request_id_header
  with_middlewares pid new_id header req stack write_error next x =
      logger_middleware req (recovery_middleware stack write_error next)
        (with_request_id_header pid new_id header x)
