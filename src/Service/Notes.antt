-- ===== src/Service/Notes.antt =====
-- The notes service of `StartNotes`: `NoteUseCase` over the Postgres repository.
pub mod Tenancy
mod Tests
use notes_microservices.Prelude.{ℕ, ℤ, String, Option, List}
use notes_microservices.Action.{Action}
use notes_microservices.Domain.{Note}
use notes_microservices.App.Notes
use notes_microservices.Postgres.Store.{Server, Database, now}
use notes_microservices.Postgres.Notes.{note_repository}

module _ (sv : Server) where
  abbrev pub create_note : String → String → String → Action Database Note
  create_note = Notes.create_note now (note_repository sv)

  abbrev pub get_note : String → String → Action Database Note
  get_note = Notes.get_note now (note_repository sv)

  abbrev pub list_notes : String → ℤ → ℤ → Action Database (List Note × ℕ)
  list_notes = Notes.list_notes now (note_repository sv)

  abbrev pub update_note : String → String → Option String → Option String → Action Database Note
  update_note = Notes.update_note now (note_repository sv)

  abbrev pub delete_note : String → String → Action Database (Unit {0})
  delete_note = Notes.delete_note now (note_repository sv)
