-- ===== src/System/Tenancy.antt =====
-- HTTP requests for notes and the notes of other users.
pub mod Calls
use notes_microservices.Prelude.{
  ℕ, ◌≡◌, ◌≢◌, refl, sym, ap, ◌∙◌, ◌⊎◌, inl, inr, String, Bool, true, false, not, Option, none,
  some, List, [], ◌∷◌, any, arith, str_eq, eq_iff, trim_space, Bool-cases, if◌then◌else◌, ℤ, pos,
}
use notes_microservices.Failure.{Err}
use notes_microservices.Action.{Action, Result, ok, err}
use notes_microservices.Domain.{Note}
use notes_microservices.Fault.Breaker.{CircuitBreaker}
use notes_microservices.Fault.Resilience.{ServiceResilience}
use notes_microservices.Fault.Resilience.Keeps.{result-keeps, error-keeps}
use notes_microservices.Postgres.Store.{Server, Database}
use notes_microservices.Postgres.Notes.Isolation.{notes_of}
use notes_microservices.Jwt.{JwtLibrary}
use notes_microservices.Rpc.{Code, clamp_int32}
use notes_microservices.App.Gateway
use notes_microservices.App.Gateway.{State, once, retried, retried_value, once_error}
use notes_microservices.Http.{Response}
use notes_microservices.Http.Request.{query_int, require_token_and_note_id}
use notes_microservices.Http.Notes.{
  NotesService, CreateNoteRequest, UpdateNoteRequest, with_token_and_note_id, update_bound,
  replace_fields, replace_bound,
}
use notes_microservices.Http.Notes
use notes_microservices.Jwt.{validate_access_token, new_access_verifier}
use notes_microservices.Rpc.Clients.{notes_client}
use notes_microservices.System.{Wire, backend, notes_service}
use notes_microservices.System.Tenancy.Calls.{IsLossy, stub-keeps}

module _ (v : String) (wait : ℕ → Database → Option Err × Database)
    (idle : (b : ℕ) (db : Database) → notes_of v (wait b db).1 ≡ notes_of v db) (now : Database → ℕ)
    (r : ServiceResilience) (context : String) {A : Type 0} (call : Action Database A)
    (keeps : (db : Database) → notes_of v (call db).1 ≡ notes_of v db) where
  abbrev view : Database → List Note
  view = notes_of v

  once-keeps : (st : State Database) → view (once now wait r context call st).1.1 ≡ view st.1
  once-keeps (cb, db) = (result-keeps view wait idle _ none keeps now r cb db).1

  retried-keeps : (st : State Database) → view (retried now wait r context call st).1.1 ≡ view st.1
  retried-keeps (cb, db) = (result-keeps view wait idle _ none keeps now r cb db).0

  retried_value-keeps :
      (zero_value : A) (st : State Database)
      → view (retried_value now wait r zero_value context call st).1.1 ≡ view st.1
  retried_value-keeps zero_value (cb, db) =
      (result-keeps view wait idle _ zero_value keeps now r cb db).0

  once_error-keeps :
      (st : State Database) → view (once_error now wait r context call st).1.1 ≡ view st.1
  once_error-keeps (cb, db) = error-keeps view wait idle _ keeps now r cb db

-- A service of the gateway whose calls with a token leave a part of the state alone.
pub record Leaves {S : Type 0} (view : S → List Note) (service : NotesService S) (token : String)
    : Type 0 where
  pub created :
      (title content : String) (s : S) → view (service.create_note token title content s).1 ≡ view s
  pub read : (note_id : String) (s : S) → view (service.get_note token note_id s).1 ≡ view s
  pub listed :
      (limit offset : ℤ) (s : S) → view (service.list_notes token limit offset s).1 ≡ view s
  pub updated :
      (note_id : String) (title content : Option String) (s : S)
      → view (service.update_note token note_id title content s).1 ≡ view s
  pub deleted : (note_id : String) (s : S) → view (service.delete_note token note_id s).1 ≡ view s

module _ (sv : Server) (lib : JwtLibrary) (secret : String) (equal_fold : String → String → Bool)
    (same : equal_fold "Bearer" "Bearer" ≡ true) (wire : Wire Database) (lossy : IsLossy wire)
    (code_name : Code → String) (close : Action Database (Unit {0}))
    (wait : ℕ → Database → Option Err × Database) (r : ServiceResilience) (v token : String)
    (idle : (b : ℕ) (db : Database) → notes_of v (wait b db).1 ≡ notes_of v db)
    (not_theirs : (at : ℕ)
      → validate_access_token lib (new_access_verifier secret) at (trim_space token) ≢ ok v) where
  abbrev theirs : State Database → List Note
  theirs st = notes_of v st.1

  notes_service-Leaves :
      Leaves theirs (notes_service sv lib secret equal_fold wire code_name close wait r) token
  unfolding notes_service backend notes_client Gateway.create_note Gateway.get_note
      Gateway.list_notes Gateway.update_note Gateway.delete_note
  notes_service-Leaves =
      let stub = stub-keeps sv lib secret equal_fold same wire lossy v token not_theirs in
      record {
        created = λ title content.
            once-keeps v wait idle _ r "create note" _
              (λ db. (stub "" title content none none (pos 0) (pos 0) db).0);
        read = λ note_id.
            retried-keeps v wait idle _ r "get note" _
              (λ db. (stub note_id "" "" none none (pos 0) (pos 0) db).1);
        listed = λ limit offset.
            let limit' = Gateway.clamp_non_negative limit in
            let offset' = Gateway.clamp_non_negative offset in
            retried_value-keeps v wait idle _ r "list notes"
              ((backend sv lib secret equal_fold wire code_name close wait r).list_notes token
                limit' offset')
              (λ db. (stub "" "" "" none none (clamp_int32 limit') (clamp_int32 offset') db).2)
              ([], pos 0);
        updated = λ note_id title content.
            once-keeps v wait idle _ r "update note" _
              (λ db. (stub note_id "" "" title content (pos 0) (pos 0) db).3);
        deleted = λ note_id.
            once_error-keeps v wait idle _ r "delete note" _
              (λ db. (stub note_id "" "" none none (pos 0) (pos 0) db).4);
      }

-- The HTTP handlers for notes, over any service of the gateway.
module _ {S : Type 0} (view : S → List Note) (service : NotesService S) (token : String)
    (leaves : Leaves view service token) where
  with-keeps :
      (note_id : String) (k : String → String → S → Response × S) (s : S)
      → view (k token note_id s).1 ≡ view s
      → view (with_token_and_note_id (require_token_and_note_id token note_id) k s).1 ≡ view s
  unfolding require_token_and_note_id
  with-keeps note_id k s quiet = ground (arith, quiet)

  create-keeps :
      (req : Option CreateNoteRequest) (s : S)
      → view (Notes.create_note service token req s).1 ≡ view s
  unfolding Notes.create_note
  create-keeps none s = ground arith
  create-keeps (some req) s =
      let kept = leaves.created req.title req.content s in ground (arith, kept)

  update-keeps :
      (note_id : String) (req : Option UpdateNoteRequest) (s : S)
      → view (update_bound service token note_id req s).1 ≡ view s
  update-keeps note_id none s = refl
  update-keeps note_id (some req) s = leaves.updated note_id req.title req.content s

  replace_fields-keeps :
      (note_id : String) (title content : Option String) (s : S)
      → view (replace_fields service token note_id title content s).1 ≡ view s
  replace_fields-keeps note_id none content s = refl
  replace_fields-keeps note_id (some title) none s = refl
  replace_fields-keeps note_id (some title) (some content) s =
      leaves.updated note_id (some title) (some content) s

  replace-keeps :
      (note_id : String) (req : Option UpdateNoteRequest) (s : S)
      → view (replace_bound service token note_id req s).1 ≡ view s
  replace-keeps note_id none s = refl
  replace-keeps note_id (some req) s = replace_fields-keeps note_id req.title req.content s

  pub handlers-Leave :
      (created : Option CreateNoteRequest) (changed : Option UpdateNoteRequest) (note_id : String)
      (atoi : String → Option ℤ) (raw_limit raw_offset : String) (s : S)
      → (view (Notes.create_note service token created s).1 ≡ view s)
        × (view (Notes.get_note service token note_id s).1 ≡ view s)
        × (view (Notes.list_notes service atoi token raw_limit raw_offset s).1 ≡ view s)
        × (view (Notes.update_note service token note_id changed s).1 ≡ view s)
        × (view (Notes.replace_note service token note_id changed s).1 ≡ view s)
        × (view (Notes.delete_note service token note_id s).1 ≡ view s)
  unfolding Notes.get_note Notes.list_notes Notes.update_note Notes.replace_note Notes.delete_note
  handlers-Leave created changed note_id atoi raw_limit raw_offset s = (
    create-keeps created s,
    with-keeps note_id _ s (leaves.read note_id s),
    (let kept =
          leaves.listed (query_int atoi raw_limit (pos 10)) (query_int atoi raw_offset (pos 0)) s in
        ground (arith, kept)),
    with-keeps note_id _ s (update-keeps note_id changed s),
    with-keeps note_id _ s (replace-keeps note_id changed s),
    with-keeps note_id _ s (leaves.deleted note_id s),
  )

-- No HTTP request for notes changes a note of a user whom its token does not prove: for a token that
-- the notes service accepts at no time as one of `v`, each of the six handlers of the gateway leaves
-- the notes of `v` as they were, whatever else the request asks, whatever the breaker, the retries
-- and the database do, and whether the wire loses calls or not.
pub requests_leave_others :
    (sv : Server) (lib : JwtLibrary) (secret : String) (equal_fold : String → String → Bool)
    (wire : Wire Database) (code_name : Code → String) (close : Action Database (Unit {0}))
    (wait : ℕ → Database → Option Err × Database) (r : ServiceResilience) (v token : String)
    → equal_fold "Bearer" "Bearer" ≡ true
    → IsLossy wire
    → ((b : ℕ) (db : Database) → notes_of v (wait b db).1 ≡ notes_of v db)
    → ((at : ℕ)
        → validate_access_token lib (new_access_verifier secret) at (trim_space token) ≢ ok v)
    → (created : Option CreateNoteRequest) (changed : Option UpdateNoteRequest) (note_id : String)
      (atoi : String → Option ℤ) (raw_limit raw_offset : String) (st : State Database)
    → let service = notes_service sv lib secret equal_fold wire code_name close wait r in
      (notes_of v (Notes.create_note service token created st).1.1 ≡ notes_of v st.1)
      × (notes_of v (Notes.get_note service token note_id st).1.1 ≡ notes_of v st.1)
      × (notes_of v (Notes.list_notes service atoi token raw_limit raw_offset st).1.1
          ≡ notes_of v st.1)
      × (notes_of v (Notes.update_note service token note_id changed st).1.1 ≡ notes_of v st.1)
      × (notes_of v (Notes.replace_note service token note_id changed st).1.1 ≡ notes_of v st.1)
      × (notes_of v (Notes.delete_note service token note_id st).1.1 ≡ notes_of v st.1)
requests_leave_others sv lib secret equal_fold wire code_name close wait r v token same lossy idle
      not_theirs created changed note_id atoi raw_limit raw_offset st =
    handlers-Leave _ _ token
      (notes_service-Leaves sv lib secret equal_fold same wire lossy code_name close wait r v token
        idle not_theirs)
      created changed note_id atoi raw_limit raw_offset st
