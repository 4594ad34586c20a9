-- ===== src/System/Tenancy/Calls.antt =====
-- Calls of the notes service over the wire and the notes of other users.
use notes_microservices.Prelude.{
  ℕ, ◌≡◌, ◌≢◌, refl, ap, ◌∙◌, ◌⊎◌, inl, inr, String, Bool, true, Option, some, [], ◌∷◌, any, arith,
  str_eq, trim_space, ℤ, select,
}
use notes_microservices.Action.{Result, ok, err}
use notes_microservices.Postgres.Store.{Server, Database}
use notes_microservices.Postgres.Notes.Isolation.{notes_of}
use notes_microservices.Postgres.Notes.{owned_by}
use notes_microservices.Service.Notes.Tenancy.{others_unchanged}
use notes_microservices.Jwt.{JwtLibrary, validate_access_token, new_access_verifier, token_service}
use notes_microservices.Rpc.{Rpc}
use notes_microservices.Rpc.Access.{Context, authenticated, with_user_id, unary_auth_interceptor}
use notes_microservices.Rpc.Access.Header.{extract_bearer_token-bearer_of}
use notes_microservices.Rpc.Clients.{bearer_of, NoteServiceClient}
use notes_microservices.Rpc.Handlers
use notes_microservices.System.{
  Wire, create_note_method, get_note_method, list_notes_method, update_note_method,
  delete_note_method, protected_methods, note_use_case, verifier, call_service, note_service_client,
}

-- What the wire does to the notes: time passes and the call may be lost, or it is run once.
pub record IsLossy (wire : Wire Database) : Type 1 where
  pub runs :
      {A : Type 0} (m : Rpc Database A) (db : Database)
      → (t : Database) × (t.notes ≡ db.notes)
        × (((wire.deliver m db).1.notes ≡ db.notes) ⊎ ((wire.deliver m db).1.notes ≡ (m t).1.notes))

module _ (sv : Server) (lib : JwtLibrary) (secret : String) (equal_fold : String → String → Bool)
    (same : equal_fold "Bearer" "Bearer" ≡ true) (wire : Wire Database) (lossy : IsLossy wire)
    (v token : String)
    (not_theirs : (at : ℕ)
      → validate_access_token lib (new_access_verifier secret) at (trim_space token) ≢ ok v) where
  abbrev asking : Context
  asking = record { authorization = some (bearer_of token ∷ []); user_id = "" }

  module _ {A : Type 0} (handler : Context → Rpc Database A)
      (own : (u : String)
        → u ≢ v
        → (db : Database) → notes_of v (handler (with_user_id asking u) db).1 ≡ notes_of v db) where
    validated-keeps :
        (r : Result String) (db : Database)
        → r ≢ ok v
        → notes_of v (authenticated r (λ id. handler (with_user_id asking id)) db).1 ≡ notes_of v db
    validated-keeps (err e) db other = refl
    validated-keeps (ok id) db other = own id (λ is_v. other (ap ok is_v)) db

    intercepted-keeps :
        (method : String) (db : Database)
        → any (str_eq method) protected_methods ≡ true
        → notes_of v
            (unary_auth_interceptor equal_fold
              (verifier sv lib secret equal_fold wire)
              protected_methods
              method
              handler
              asking
              db).1
          ≡ notes_of v db
    unfolding unary_auth_interceptor token_service
    intercepted-keeps method db guarded =
        let read = extract_bearer_token-bearer_of equal_fold same token in
        let r =
          validate_access_token lib (new_access_verifier secret) db.clock (trim_space token) in
        let kept = validated-keeps r db (not_theirs db.clock) in ground (arith, read, kept)

    -- So over the wire.
    call-keeps :
        (method : String) (db : Database)
        → any (str_eq method) protected_methods ≡ true
        → notes_of v
            (call_service sv lib secret equal_fold wire method handler (bearer_of token) db).1
          ≡ notes_of v db
    call-keeps method db guarded =
        let m =
          unary_auth_interceptor equal_fold (verifier sv lib secret equal_fold wire)
            protected_methods method handler asking in
        let (t, at_first, run) = lossy.runs m db in
        let before : notes_of v t ≡ notes_of v db = ap (select (owned_by v)) at_first in
        elim run [
          | inl lost ↦ ap (select (owned_by v)) lost
          | inr ran ↦ ap (select (owned_by v)) ran ∙ intercepted-keeps method t guarded ∙ before
        ]

  abbrev stub : NoteServiceClient Database
  stub = note_service_client sv lib secret equal_fold wire

  -- Each method of the stub with the header of that token.
  pub stub-keeps :
      (note_id title content : String) (new_title new_content : Option String) (limit offset : ℤ)
      (db : Database)
      → (notes_of v (stub.create_note (bearer_of token) title content db).1 ≡ notes_of v db)
        × (notes_of v (stub.get_note (bearer_of token) note_id db).1 ≡ notes_of v db)
        × (notes_of v (stub.list_notes (bearer_of token) limit offset db).1 ≡ notes_of v db)
        × (notes_of v (stub.update_note (bearer_of token) note_id new_title new_content db).1
            ≡ notes_of v db)
        × (notes_of v (stub.delete_note (bearer_of token) note_id db).1 ≡ notes_of v db)
  unfolding Handlers.create_note Handlers.get_note Handlers.list_notes Handlers.update_note
      Handlers.delete_note
  stub-keeps note_id title content new_title new_content limit offset db =
      let others = λ (u : String) (other : u ≢ v) (d : Database).
        others_unchanged sv u v other note_id title content new_title new_content limit offset d in
      (
        call-keeps (λ ctx. Handlers.create_note (note_use_case sv) ctx title content)
            (λ u other d. let kept = others u other d in ground (arith, kept)) create_note_method db
            refl,
        call-keeps (λ ctx. Handlers.get_note (note_use_case sv) ctx note_id)
            (λ u other d. let kept = others u other d in ground (arith, kept)) get_note_method db
            refl,
        call-keeps (λ ctx. Handlers.list_notes (note_use_case sv) ctx limit offset)
            (λ u other d. let kept = others u other d in ground (arith, kept)) list_notes_method db
            refl,
        call-keeps
            (λ ctx. Handlers.update_note (note_use_case sv) ctx note_id new_title new_content)
            (λ u other d. let kept = others u other d in ground (arith, kept)) update_note_method db
            refl,
        call-keeps (λ ctx. Handlers.delete_note (note_use_case sv) ctx note_id)
            (λ u other d. let kept = others u other d in ground (arith, kept)) delete_note_method db
            refl,
      )
