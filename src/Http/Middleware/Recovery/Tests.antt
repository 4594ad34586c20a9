-- ===== src/Http/Middleware/Recovery/Tests.antt =====
-- A handler that panics, behind the middlewares.
use notes_microservices.Prelude.{ℕ, ◌≡◌, refl, str_neq, String, none, some, [], ◌∷◌}
use notes_microservices.Logger.{request_id_from_context, new_request_id_context, log}
use notes_microservices.Logger.Lines.{at_info, at_error, Adds}
use notes_microservices.Logger.Sample.{sample_zap, no_values}
use notes_microservices.Rpc.RequestId.{request_id_middleware}
use notes_microservices.Http.{error_response, json_response, no_body}
use notes_microservices.Http.Errors.{internal_server_error}
use notes_microservices.Http.Middleware.{
  Outcome, returned, panicked, Exchange, FiberHandler, Request, with_request_id_header,
  with_middlewares,
}
use notes_microservices.Http.Middleware.Recovery.{panics_answered}

abbrev crashing : FiberHandler String ℕ
crashing x = (panicked "index out of range", record x { state = 7 })

abbrev get_health : Request
get_health = record { path = "/health"; method = "GET"; ip = "10.0.0.7" }

abbrev arrived : Exchange String ℕ
arrived = record {
  context = no_values;
  response = json_response 200 no_body;
  request_id_header = "";
  global_logger = some "gateway";
  lines = [];
  now = 5;
  state = 0;
}

abbrev answered : Outcome × Exchange String ℕ
answered = with_middlewares sample_zap "41" "new-id" "r-1" get_health "stack" none crashing arrived

panics_answered_example :
    (answered.0 ≡ returned none)
    × (answered.1.response ≡ error_response 500 internal_server_error)
    × (answered.1.state ≡ 7)
    × Adds "r-1" (at_error ∷ at_info ∷ []) [] answered.1.lines
unfolding with_request_id_header request_id_middleware new_request_id_context
    request_id_from_context log
panics_answered_example =
    panics_answered sample_zap "41" "new-id" "r-1" get_health "stack" crashing arrived "gateway"
      refl (str_neq "new-id" "" refl)
