-- ===== src/System.antt =====
-- The way of a request for notes from the gateway's HTTP handlers to the tables, as internal/bootstrap
-- joins the parts: the handlers, `NotesService` behind its breaker, the client, the wire, the auth
-- interceptor with the verifier of access tokens, the handlers of the notes service, and its use cases
-- over Postgres. The state is the gateway's breaker and the database; all programs read one clock.
pub mod Tenancy
pub mod Login
pub mod Accounts
mod Tests
use notes_microservices.Prelude.{ℕ, ℤ, String, Bool, Option, none, some, List, [], ◌∷◌}
use notes_microservices.Failure.{Err}
use notes_microservices.Action.{Action, Result, ok, err}
use notes_microservices.Ports.{NoteUseCase, NotesBackend, TokenService}
use notes_microservices.Fault.Resilience.{ServiceResilience}
use notes_microservices.Postgres.Store.{Server, Database, now}
use notes_microservices.Service.Notes
use notes_microservices.Jwt.{JwtLibrary, token_service, new_access_verifier}
use notes_microservices.Rpc.{Code, Rpc}
use notes_microservices.Rpc.Access.{Context, unary_auth_interceptor}
use notes_microservices.Rpc.Clients.{NoteServiceClient, notes_client}
use notes_microservices.Rpc.Handlers
use notes_microservices.App.Gateway
use notes_microservices.Http.Notes.{NotesService}

-- The full names of the methods of NoteService.
abbrev pub create_note_method : String
create_note_method = "/notes.v1.NoteService/CreateNote"

abbrev pub get_note_method : String
get_note_method = "/notes.v1.NoteService/GetNote"

abbrev pub list_notes_method : String
list_notes_method = "/notes.v1.NoteService/ListNotes"

abbrev pub update_note_method : String
update_note_method = "/notes.v1.NoteService/UpdateNote"

abbrev pub delete_note_method : String
delete_note_method = "/notes.v1.NoteService/DeleteNote"

-- The methods that `StartNotes` protects.
abbrev pub protected_methods : List String
protected_methods =
    create_note_method ∷ get_note_method ∷ list_notes_method ∷ update_note_method
    ∷ delete_note_method ∷ []

-- The wire: what becomes of a call of the service.
pub record Wire (S : Type 0) : Type 1 where
  pub deliver : {A : Type 0} → Rpc S A → Rpc S A

module _ (sv : Server) where
  abbrev pub note_use_case : NoteUseCase Database
  note_use_case = record {
    create_note = Notes.create_note sv;
    get_note = Notes.get_note sv;
    list_notes = Notes.list_notes sv;
    update_note = Notes.update_note sv;
    delete_note = Notes.delete_note sv;
  }

  module _ (lib : JwtLibrary) (secret : String) (equal_fold : String → String → Bool)
      (wire : Wire Database) where
    -- `NewAccessVerifier`, which draws no ids.
    abbrev pub verifier : TokenService Database
    verifier = token_service lib now (λ db. 0) (λ db. db) (new_access_verifier secret)

    -- A call of a method with the value of its `authorization` key, on the notes service.
    abbrev pub call_service :
        {A : Type 0} → String → (Context → Rpc Database A) → String → Rpc Database A
    call_service method handler authorization = wire.deliver (
        unary_auth_interceptor equal_fold verifier protected_methods method handler
          (record { authorization = some (authorization ∷ []); user_id = "" }))

    abbrev pub note_service_client : NoteServiceClient Database
    note_service_client = record {
      create_note = λ authorization title content.
          call_service create_note_method
            (λ ctx. Handlers.create_note note_use_case ctx title content) authorization;
      get_note = λ authorization note_id.
          call_service get_note_method (λ ctx. Handlers.get_note note_use_case ctx note_id)
            authorization;
      list_notes = λ authorization limit offset.
          call_service list_notes_method (λ ctx. Handlers.list_notes note_use_case ctx limit offset)
            authorization;
      update_note = λ authorization note_id title content.
          call_service update_note_method
            (λ ctx. Handlers.update_note note_use_case ctx note_id title content) authorization;
      delete_note = λ authorization note_id.
          call_service delete_note_method (λ ctx. Handlers.delete_note note_use_case ctx note_id)
            authorization;
    }

    module _ (code_name : Code → String) (close : Action Database (Unit {0}))
        (wait : ℕ → Database → Option Err × Database) (r : ServiceResilience) where
      unfoldable pub backend : NotesBackend Database
      unfolding unary_auth_interceptor notes_client token_service
      backend = notes_client code_name note_service_client close

      -- `NotesService` of the gateway.
      unfoldable pub notes_service : NotesService (Gateway.State Database)
      unfolding backend
      notes_service = record {
        create_note = Gateway.create_note now wait r backend;
        get_note = Gateway.get_note now wait r backend;
        list_notes = Gateway.list_notes now wait r backend;
        update_note = Gateway.update_note now wait r backend;
        delete_note = Gateway.delete_note now wait r backend;
      }
