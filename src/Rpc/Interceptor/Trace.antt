-- ===== src/Rpc/Interceptor/Trace.antt =====
-- What a caller and the log get of a call through the interceptors.
use notes_microservices.Prelude.{◌≡◌, ◌≢◌, refl, String, Option, some, List, [], ◌∷◌, arith}
use notes_microservices.Logger.{
  Zap, Context, log, method, with_fields, request_id_from_context, new_request_id_context,
}
use notes_microservices.Logger.Lines.{LogLevel, at_debug, at_error, Adds, write-Adds, log_debug}
use notes_microservices.Rpc.{Rpc, Reply, reply, failed, RpcError}
use notes_microservices.Rpc.RequestId.{with_request_id, with_request_id-filled}
use notes_microservices.Rpc.Interceptor.{
  Texts, unary_texts, stream_texts, Logged, log_end, log_around, with_lines,
  unary_request_id_interceptor, stream_request_id_interceptor,
}

abbrev pub end_level : {A : Type 0} → Reply A → LogLevel
end_level (reply a) = at_debug
end_level (failed e) = at_error

module _ {Z S A : Type 0} where
  -- The handler runs once, in `ctx`, behind one new line; its answer and its state are those of the
  -- call, and one more line says how it ended. Both lines have the request id of `ctx`.
  abbrev pub IsTraced :
      Context Z → (Context Z → Rpc (Logged Z S) A) → Logged Z S → Reply A × Logged Z S → Type 0
  IsTraced ctx handler s (answer, s') =
      let id = request_id_from_context (some ctx) in
      (begun : Logged Z S) × (begun.state ≡ s.state)
      × (begun.global_logger ≡ s.global_logger)
      × Adds id (at_debug ∷ []) s.lines begun.lines
      × (let (answer', seen) = handler ctx begun in
          (answer ≡ answer')
          × (s'.state ≡ seen.state)
          × Adds id (end_level answer' ∷ []) seen.lines s'.lines)

  log_end-closes :
      (error_text : RpcError → String) (texts : Texts) (core : Z) (ctx : Context Z)
      (answer : Reply A) (seen : Logged Z S)
      → request_id_from_context (some ctx) ≢ ""
      → let (answer', s') = log_end error_text texts (some core) ctx answer seen in
        (answer' ≡ answer)
        × (s'.state ≡ seen.state)
        × Adds (request_id_from_context (some ctx)) (end_level answer ∷ []) seen.lines s'.lines
  unfolding log_end
  log_end-closes error_text texts core ctx (reply a) seen filled =
      (refl, refl, write-Adds at_debug core ctx _ _ seen.lines filled)
  log_end-closes error_text texts core ctx (failed e) seen filled =
      (refl, refl, write-Adds at_error core ctx _ _ seen.lines filled)

  log_around-IsTraced :
      (error_text : RpcError → String) (texts : Texts) (core : Z) (ctx : Context Z)
      (handler : Context Z → Rpc (Logged Z S) A) (s : Logged Z S)
      → request_id_from_context (some ctx) ≢ ""
      → IsTraced ctx handler s (log_around error_text texts (some core) ctx handler s)
  unfolding log_around
  log_around-IsTraced error_text texts core ctx handler s filled =
      let begun : Logged Z S = record s {
        lines = log_debug (some core) (some ctx) texts.started [] s.lines;
      } in
      let (answer, seen) = handler ctx begun in
      (
        begun,
        refl,
        refl,
        write-Adds at_debug core ctx texts.started [] s.lines filled,
        log_end-closes error_text texts core ctx answer seen filled,
      )

module _ {Z : Type 0} (zap : Zap Z) (pid new_id : String) (md : Option (String → List String)) where
  log-with_request_id :
      (ctx : Context Z) (pointer : Option Z)
      → log zap (some (with_request_id pid new_id md (some ctx))) pointer
        ≡ log zap (some ctx) pointer
  unfolding log with_request_id new_request_id_context
  log-with_request_id ctx pointer = ground arith

module _ {Z S A : Type 0} (zap : Zap Z) (error_text : RpcError → String) (pid new_id : String)
    (full_method : String) (md : Option (String → List String)) where
  with_lines-IsTraced :
      (texts : Texts) (handler : Context Z → Rpc (Logged Z S) A) (ctx : Context Z) (s : Logged Z S)
      (core : Z)
      → log zap (some ctx) s.global_logger ≡ (some core, s.global_logger)
      → new_id ≢ ""
      → IsTraced
          (with_request_id pid new_id md (some ctx))
          handler
          s
          (with_lines zap error_text pid new_id texts full_method md handler ctx s)
  unfolding with_lines method with_fields
  with_lines-IsTraced texts handler ctx s core set_up made =
      rw (log-with_request_id zap pid new_id md ctx s.global_logger, set_up)
        (log_around-IsTraced error_text texts _ (with_request_id pid new_id md (some ctx)) handler s
          (with_request_id-filled pid new_id md (some ctx) made))

  -- Both interceptors of request ids run the handler in a context with a request id that is not empty,
  -- hand its answer and its state on as they are, and log one line before it and one after it, the
  -- second an error exactly where the handler failed, each with that request id, if a logger with a
  -- core is set, in the context or globally, and a new request id is not empty.
  pub interceptors-IsTraced :
      (handler : Context Z → Rpc (Logged Z S) A) (ctx : Context Z) (s : Logged Z S) (core : Z)
      → log zap (some ctx) s.global_logger ≡ (some core, s.global_logger)
      → new_id ≢ ""
      → let ctx' = with_request_id pid new_id md (some ctx) in
        (request_id_from_context (some ctx') ≢ "")
        × IsTraced ctx' handler s
            (unary_request_id_interceptor zap error_text pid new_id full_method md handler ctx s)
        × IsTraced ctx' handler s
            (stream_request_id_interceptor zap error_text pid new_id full_method md handler ctx s)
  unfolding unary_request_id_interceptor stream_request_id_interceptor
  interceptors-IsTraced handler ctx s core set_up made = (
    with_request_id-filled pid new_id md (some ctx) made,
    with_lines-IsTraced unary_texts handler ctx s core set_up made,
    with_lines-IsTraced stream_texts handler ctx s core set_up made,
  )
