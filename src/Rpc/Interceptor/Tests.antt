-- ===== src/Rpc/Interceptor/Tests.antt =====
-- A call with a request id in its metadata, which fails.
use notes_microservices.Prelude.{
  ℕ, ◌≢◌, refl, str_neq, String, some, List, [], ◌∷◌, str_eq, if◌then◌else◌,
}
use notes_microservices.Logger.{Context, request_id_from_context, log}
use notes_microservices.Logger.Sample.{sample_zap, no_values}
use notes_microservices.Rpc.{Rpc, RpcError, refuse, code_not_found}
use notes_microservices.Rpc.RequestId.{with_request_id}
use notes_microservices.Rpc.Interceptor.{
  Logged, unary_request_id_interceptor, stream_request_id_interceptor,
}
use notes_microservices.Rpc.Interceptor.Trace.{IsTraced, interceptors-IsTraced}

abbrev missing_note : Context String → Rpc (Logged String ℕ) ℕ
missing_note ctx = refuse code_not_found "note not found"

abbrev metadata : String → List String
metadata key = if str_eq key "x-request-id" then "r-1" ∷ [] else []

abbrev idle : Logged String ℕ
idle = record { global_logger = some "notes"; lines = []; state = 0 }

abbrev no_text : RpcError → String
no_text e = ""

abbrev received : Context String
received = with_request_id "41" "new-id" (some metadata) (some no_values)

interceptors-IsTraced_example :
    (request_id_from_context (some received) ≢ "")
    × IsTraced received missing_note idle (
        unary_request_id_interceptor sample_zap no_text "41" "new-id"
          "/notes.v1.NoteService/GetNote"
          (some metadata)
          missing_note
          no_values
          idle)
    × IsTraced received missing_note idle (
        stream_request_id_interceptor sample_zap no_text "41" "new-id"
          "/notes.v1.NoteService/GetNote"
          (some metadata)
          missing_note
          no_values
          idle)
unfolding log
interceptors-IsTraced_example =
    interceptors-IsTraced sample_zap no_text "41" "new-id" "/notes.v1.NoteService/GetNote"
      (some metadata) missing_note no_values idle "notes" refl (str_neq "new-id" "" refl)
