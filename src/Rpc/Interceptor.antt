-- ===== src/Rpc/Interceptor.antt =====
-- `unaryRequestIDInterceptor` and `streamRequestIDInterceptor` of internal/adapters/grpc/interceptor.go.
-- A handler of a stream returns no message. `error_text` is the text of an error of a call, and `pid` and `new_id` are those of RequestId.
pub mod Trace
mod Tests
use notes_microservices.Prelude.{String, Option, some, List, [], ◌∷◌}
use notes_microservices.Logger.{Zap, Context, string, error_field, method, with_fields}
use notes_microservices.Logger.Lines.{Line, log_debug, log_error}
use notes_microservices.Rpc.{Rpc, Reply, reply, failed, RpcError}
use notes_microservices.Rpc.RequestId.{with_request_id}

-- The state of a call's handler, with the global logger and the lines that are logged.
pub record Logged (Z S : Type 0) : Type 0 where
  pub global_logger : Option Z
  pub lines : List (Line Z)
  pub state : S

-- The texts of one of the two interceptors.
record Texts : Type 0 where
  pub middleware : String
  pub started : String
  pub failed : String
  pub completed : String

abbrev unary_texts : Texts
unary_texts = record {
  middleware = "grpc-unary";
  started = "gRPC unary request started";
  failed = "gRPC unary request failed";
  completed = "gRPC unary request completed";
}

abbrev stream_texts : Texts
stream_texts = record {
  middleware = "grpc-stream";
  started = "gRPC stream request started";
  failed = "gRPC stream request failed";
  completed = "gRPC stream request completed";
}

module _ {Z S A : Type 0} (error_text : RpcError → String) (texts : Texts) where
  -- The line about how a call ended, in the context with the request id.
  unfoldable log_end : Option Z → Context Z → Reply A → Logged Z S → Reply A × Logged Z S
  log_end core ctx (failed e) s =
      let lines =
        log_error core (some ctx) texts.failed (error_field (error_text e) ∷ []) s.lines in
      (failed e, record s { lines = lines })
  log_end core ctx (reply a) s =
      let lines = log_debug core (some ctx) texts.completed [] s.lines in
      (reply a, record s { lines = lines })

  -- The two lines around a handler.
  unfoldable log_around :
      Option Z → Context Z → (Context Z → Rpc (Logged Z S) A) → Rpc (Logged Z S) A
  unfolding log_end
  log_around core ctx handler s =
      let lines = log_debug core (some ctx) texts.started [] s.lines in
      let (answer, s') = handler ctx (record s { lines = lines }) in log_end core ctx answer s'

module _ {Z S A : Type 0} (zap : Zap Z) (error_text : RpcError → String) (pid new_id : String) where
  unfoldable with_lines :
      Texts
      → String
      → Option (String → List String)
      → (Context Z → Rpc (Logged Z S) A)
      → Context Z
      → Rpc (Logged Z S) A
  unfolding with_request_id method with_fields log_around
  with_lines texts full_method md handler ctx s =
      let ctx' = with_request_id pid new_id md (some ctx) in
      let (core, pointer) = method zap (some ctx') full_method s.global_logger in
      let core' = with_fields zap core (string "middleware" texts.middleware ∷ []) in
      log_around error_text texts core' ctx' handler (record s { global_logger = pointer })

  -- The interceptor of unary calls around a handler of the method `full_method`.
  unfoldable pub unary_request_id_interceptor :
      String
      → Option (String → List String)
      → (Context Z → Rpc (Logged Z S) A)
      → Context Z
      → Rpc (Logged Z S) A
  unfolding with_lines
  unary_request_id_interceptor = with_lines unary_texts

  -- The interceptor of streams; its handler gets a stream that has the new context.
  unfoldable pub stream_request_id_interceptor :
      String
      → Option (String → List String)
      → (Context Z → Rpc (Logged Z S) A)
      → Context Z
      → Rpc (Logged Z S) A
  unfolding with_lines
  stream_request_id_interceptor = with_lines stream_texts
