-- ===== src/App/Notes.antt =====
-- internal/app/notes.go: the use cases of the notes service.
pub mod Limits
use notes_microservices.Prelude.{
  ℕ, ℤ, pos, negsuc, String, Bool, Option, none, some, List, is_nonpos, gtb_ℤ, is_neg,
  if◌then◌else◌,
}
use notes_microservices.Action.{Action, Result, pure, fail, lift, within, ◌>>=◌, ◌>>◌}
use notes_microservices.Failure.{Err, wrap}
use notes_microservices.Domain.{Time, Note, new_note, apply_update}
use notes_microservices.Ports.{NoteRepository}

abbrev pub default_list_limit : ℤ
default_list_limit = pos 10

abbrev pub max_list_limit : ℕ
max_list_limit = 100

-- The two tests on `limit`.
unfoldable pub clamp_limit : ℤ → ℤ
clamp_limit limit =
    let limit' = if is_nonpos limit then default_list_limit else limit in
    if gtb_ℤ limit' max_list_limit then pos max_list_limit else limit'

unfoldable pub clamp_offset : ℤ → ℤ
clamp_offset offset = if is_neg offset then pos 0 else offset

-- A signed number that the tests have made non-negative, as the database takes it.
abbrev pub as_ℕ : ℤ → ℕ
as_ℕ (pos n) = n
as_ℕ (negsuc n) = 0

-- `now s` is the clock as it stands in the state `s`.
module _ {S : Type 0} (now : S → Time) (repo : NoteRepository S) where
  unfoldable pub create_note : String → String → String → Action S Note
  create_note user_id title content s =
      within "create note"
        (do note ← lift (new_note (now s) user_id title content); repo.create note) s

  unfoldable pub get_note : String → String → Action S Note
  get_note user_id note_id = within "get note" (repo.get_by_id note_id user_id)

  unfoldable pub list_notes : String → ℤ → ℤ → Action S (List Note × ℕ)
  unfolding clamp_limit clamp_offset
  list_notes user_id limit offset =
      within "list notes"
        (repo.list_by_user_id user_id (as_ℕ (clamp_limit limit)) (as_ℕ (clamp_offset offset)))

  -- What follows `ApplyUpdate`.
  abbrev pub save_note : Option Err × Note → Action S Note
  save_note (some e, note) = fail e
  save_note (none, note) = do repo.update note; pure note

  unfoldable pub update_note : String → String → Option String → Option String → Action S Note
  update_note user_id note_id title content = within "update note" (do
    note ← repo.get_by_id note_id user_id
    λ s. save_note (apply_update (now s) title content note) s)

  unfoldable pub delete_note : String → String → Action S (Unit {0})
  delete_note user_id note_id = within "delete note" (repo.delete note_id user_id)
