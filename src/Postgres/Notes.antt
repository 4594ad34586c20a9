-- ===== src/Postgres/Notes.antt =====
-- internal/adapters/postgres/notes.go and the `notes` table, with its trigger that sets `updated_at`.
pub mod Isolation
pub mod RoundTrip
pub mod Shelf
use notes_microservices.Prelude.{
  ℕ, zero, suc, String, Bool, ◌&&◌, Option, none, some, List, ◌++◌, [], ◌∷◌, str_eq, ◌==◌, take,
  drop, select, count, find, update, not, if◌then◌else◌,
}
use notes_microservices.Failure.{
  Err, Sentinel, sentinel, wrap, no_rows, is_foreign, note_not_found, note_not_found_or_not_owned,
}
use notes_microservices.Action.{
  Action, Result, ok, err, pure, fail, lift, within, handle, ◌>>=◌, ◌>>◌,
}
use notes_microservices.Domain.{Note}
use notes_microservices.Ports.{NoteRepository}
use notes_microservices.Postgres.Rows.{read_rows}
use notes_microservices.Postgres.Store.{Server, Database, statement, scan_one, select_one}

-- The `WHERE` clauses.
abbrev pub owned_by : String → Note → Bool
owned_by user_id n = str_eq n.user_id user_id

abbrev pub is_row : String → String → Note → Bool
is_row note_id user_id n = str_eq n.id note_id && owned_by user_id n

module _ (sv : Server) where
  -- INSERT INTO notes (user_id, title, content) VALUES ($1, $2, $3) RETURNING …
  insert_note : Note → Database → Result Note × Database
  insert_note n db =
      let row : Note = record {
        created_at = db.clock;
        updated_at = db.clock;
        id = sv.new_id db.serial;
        user_id = n.user_id;
        title = n.title;
        content = n.content;
      } in
      (ok row, record db { notes = db.notes ++ row ∷ []; serial = suc db.serial })

  unfoldable pub create : Note → Action Database Note
  unfolding insert_note
  create n = within "notes.Create" (scan_one (insert_note n))

  -- What a failed look-up of one row means.
  abbrev not_found_or : Sentinel → String → Err → Err
  not_found_or missing method e = if is_foreign e no_rows then sentinel missing else wrap method e

  -- SELECT … FROM notes WHERE id = $1 AND user_id = $2
  unfoldable pub get_by_id : String → String → Action Database Note
  get_by_id note_id user_id db =
      let (row, db') = select_one sv (λ d. find (is_row note_id user_id) d.notes) db in
      handle row pure (λ e. fail (not_found_or note_not_found "notes.GetByID" e)) db'

  -- SELECT COUNT(*) FROM notes WHERE user_id = $1, then the page of the newest
  -- SELECT … WHERE user_id = $1 ORDER BY updated_at DESC LIMIT $2 OFFSET $3
  page_of : String → ℕ → ℕ → List Note → List Note
  page_of user_id limit offset rows =
      take limit (drop offset (sv.notes_newest_first (select (owned_by user_id) rows)))

  count_notes : String → Action Database ℕ
  count_notes user_id =
      within "notes.ListByUserID count"
        (statement (λ d. (ok (count (owned_by user_id) d.notes), d)))

  page_notes : String → ℕ → ℕ → Action Database (List Note)
  unfolding page_of
  page_notes user_id limit offset = do
    rows ←
        within "notes.ListByUserID"
          (statement (λ d. (ok (page_of user_id limit offset d.notes), d)))
    within "notes.ListByUserID scan" (read_rows rows)

  unfoldable pub list_by_user_id : String → ℕ → ℕ → Action Database (List Note × ℕ)
  unfolding count_notes page_notes
  list_by_user_id user_id limit offset = do
    total ← count_notes user_id
    rows ← page_notes user_id limit offset
    pure (rows, total)

  -- What a statement that changed no row means.
  abbrev pub require_rows : Sentinel → ℕ → Action Database (Unit {0})
  require_rows missing zero = fail (sentinel missing)
  require_rows missing (suc n) = pure tt

  -- UPDATE notes SET title = $1, content = $2 WHERE id = $3 AND user_id = $4
  update_rows : Note → Database → Result ℕ × Database
  update_rows n db = (
    ok (count (is_row n.id n.user_id) db.notes),
    record db {
      notes =
          update (is_row n.id n.user_id)
            (λ row. record row { title = n.title; content = n.content; updated_at = db.clock })
            db.notes;
    },
  )

  unfoldable pub update_note : Note → Action Database (Unit {0})
  unfolding update_rows
  update_note n = do
    affected ← within "notes.Update" (statement (update_rows n))
    require_rows note_not_found_or_not_owned affected

  -- DELETE FROM notes WHERE id = $1 AND user_id = $2
  delete_rows : String → String → Database → Result ℕ × Database
  delete_rows note_id user_id db = (
    ok (count (is_row note_id user_id) db.notes),
    record db { notes = select (λ n. not (is_row note_id user_id n)) db.notes },
  )

  unfoldable pub delete : String → String → Action Database (Unit {0})
  unfolding delete_rows
  delete note_id user_id = do
    affected ← within "notes.Delete" (statement (delete_rows note_id user_id))
    require_rows note_not_found_or_not_owned affected

  abbrev pub note_repository : NoteRepository Database
  note_repository = record {
    list_by_user_id = list_by_user_id;
    get_by_id = get_by_id;
    create = create;
    update = update_note;
    delete = delete;
  }
