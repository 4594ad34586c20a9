-- ===== src/Postgres/Notes/Isolation.antt =====
-- What one user's statements leave of another user's notes.
use notes_microservices.Prelude.{
  ℕ, ◌≡◌, refl, ◌≢◌, String, true, false, List, str_eq, select, not, arith, eq_iff,
  select-update_apart, select-select_apart, select-append_refused, ◌∙◌, zero, suc, Option, none,
  some, find, find-holds, take, drop, count, ap,
}
use notes_microservices.Action.{within, ok}
use notes_microservices.Failure.{Sentinel, Err}
use notes_microservices.Domain.{Note}
use notes_microservices.Postgres.Rows.{read_rows, read_rows-ok, Keeps-read_rows}
use notes_microservices.Postgres.Store.{
  statement, Server, Database, unless_fault, found_row, take_turn, scan_one,
}
use notes_microservices.Postgres.Keeps.{
  IsView, Keeps, Keeps-pure, Keeps-fail, Keeps-within, Keeps-statement, Keeps-scan_one, Keeps-bind,
  Keeps-handle, statement-read,
}
use notes_microservices.Postgres.Notes.{
  owned_by, is_row, insert_note, create, get_by_id, list_by_user_id, require_rows, update_rows,
  update_note, delete_rows, delete, count_notes, page_notes,
}
use notes_microservices.Action.Laws.{bind-eq-ok, context_of-eq-ok}

-- The notes of one user, in the order of the table.
abbrev pub notes_of : String → Database → List Note
notes_of user_id db = select (owned_by user_id) db.notes

module _ (sv : Server) (u v : String) (other : u ≢ v) where
  notes_of-IsView : IsView (notes_of v)
  notes_of-IsView = record { at = λ db c ts. refl }

  owned_apart : (owner : String) → str_eq owner u ≡ true → str_eq owner v ≡ false
  owned_apart owner h = ground (arith, eq_iff owner u, eq_iff owner v)

  pub create-Keeps_others : (n : Note) → n.user_id ≡ u → Keeps (notes_of v) (create sv n)
  unfolding create insert_note
  create-Keeps_others n mine = Keeps-within _ _ (
      Keeps-scan_one _ notes_of-IsView (λ db.
        select-append_refused (owned_by v) db.notes _
          (owned_apart n.user_id ((eq_iff _ _).1 mine))))

  pub get_by_id-Keeps_others : (note_id : String) → Keeps (notes_of v) (get_by_id sv note_id u)
  unfolding get_by_id
  get_by_id-Keeps_others note_id =
      Keeps-handle _ _ _ (Keeps-scan_one _ notes_of-IsView (λ db. refl)) (λ n. Keeps-pure n)
        (λ e. Keeps-fail _)

  page_notes-Keeps_others : (limit offset : ℕ) → Keeps (notes_of v) (page_notes sv u limit offset)
  unfolding page_notes
  page_notes-Keeps_others limit offset =
      Keeps-bind _ _ (Keeps-within _ _ (Keeps-statement _ notes_of-IsView (λ db. refl)))
        (λ rows. Keeps-within _ (read_rows rows) (Keeps-read_rows rows notes_of-IsView))

  pub list-Keeps_others :
      (limit offset : ℕ) → Keeps (notes_of v) (list_by_user_id sv u limit offset)
  unfolding list_by_user_id
  list-Keeps_others limit offset =
      Keeps-bind _ _ (Keeps-within _ _ (Keeps-statement _ notes_of-IsView (λ db. refl))) (λ total.
        Keeps-bind (page_notes sv u limit offset) _ (page_notes-Keeps_others limit offset)
          (λ rows. Keeps-pure _))

  require_rows-Keeps : (missing : Sentinel) (n : ℕ) → Keeps (notes_of v) (require_rows sv missing n)
  require_rows-Keeps missing zero = Keeps-fail _
  require_rows-Keeps missing (suc n) = Keeps-pure tt

  pub update-Keeps_others : (n : Note) → n.user_id ≡ u → Keeps (notes_of v) (update_note sv n)
  unfolding update_note update_rows
  update-Keeps_others n mine =
      Keeps-bind _ _
        (Keeps-within _ _ (
          Keeps-statement _ notes_of-IsView (λ db.
            select-update_apart (owned_by v) (is_row n.id n.user_id) _
              (λ row h. ground (
                arith,
                owned_apart row.user_id,
                eq_iff row.user_id u,
                eq_iff row.user_id n.user_id,
              ))
              db.notes)))
        (λ affected. require_rows-Keeps _ affected)

  pub delete-Keeps_others : (note_id : String) → Keeps (notes_of v) (delete sv note_id u)
  unfolding delete delete_rows
  delete-Keeps_others note_id =
      Keeps-bind _ _
        (Keeps-within _ _ (
          Keeps-statement _ notes_of-IsView (λ db.
            select-select_apart (owned_by v) (λ row. not (is_row note_id u row))
              (λ row h. ground (arith, owned_apart row.user_id)) db.notes)))
        (λ affected. require_rows-Keeps _ affected)

scanned-owner :
    (sv : Server) (note_id user_id : String) (fault : Option Err) (db : Database) (n : Note)
    → (unless_fault fault (λ d. (found_row sv (find (is_row note_id user_id) d.notes), d)) db).0
      ≡ ok n
    → n.user_id ≡ user_id
scanned-owner sv note_id user_id (some e) db n h = cc
scanned-owner sv note_id user_id none db n h =
    ground (arith, find-holds (is_row note_id user_id) db.notes n, eq_iff n.user_id user_id)

-- A note that a look-up returns belongs to the user who asks.
pub get_by_id-owner :
    (sv : Server) (note_id user_id : String) (db : Database) (n : Note)
    → (get_by_id sv note_id user_id db).0 ≡ ok n
    → n.user_id ≡ user_id
unfolding get_by_id scan_one
get_by_id-owner sv note_id user_id db n h =
    let (fault, db') = take_turn db.turns db in
    scanned-owner sv note_id user_id fault db' n (ground arith)

module _ (sv : Server) (u : String) (limit offset : ℕ) where
  count_notes-read :
      (db : Database) (n : ℕ) → (count_notes sv u db).0 ≡ ok n → n ≡ count (owned_by u) db.notes
  unfolding count_notes
  count_notes-read db n h =
      statement-read (λ d. count (owned_by u) d.notes) (record { at = λ d c ts. refl }) db
        (context_of-eq-ok "notes.ListByUserID count" _ h)

  count_notes-notes : (db : Database) → (count_notes sv u db).1.notes ≡ db.notes
  unfolding count_notes
  count_notes-notes db =
      (Keeps-statement {view = λ d. d.notes} (λ d. (ok (count (owned_by u) d.notes), d))
          (record { at = λ d c ts. refl }) (λ d. refl)).at
        db

  page_notes-read :
      (db : Database) (ns : List Note)
      → (page_notes sv u limit offset db).0 ≡ ok ns
      → ns ≡ take limit (drop offset (sv.notes_newest_first (notes_of u db)))
  unfolding page_notes
  page_notes-read db ns h =
      let page =
        λ (d : Database). take limit (drop offset (sv.notes_newest_first (notes_of u d))) in
      let query = statement (λ d. (ok (page d), d)) in
      let (found, first, read) = bind-eq-ok (within "notes.ListByUserID" query) _ db h in
      read_rows-ok found ns (query db).1 (context_of-eq-ok "notes.ListByUserID scan" _ read)
      ∙ statement-read page (record { at = λ d c ts. refl }) db
          (context_of-eq-ok "notes.ListByUserID" _ first)

  -- A page that is listed is the page of the user's rows as they stand, with their number.
  pub list_by_user_id-rows :
      (db : Database) (rows : List Note) (total : ℕ)
      → (list_by_user_id sv u limit offset db).0 ≡ ok (rows, total)
      → (rows ≡ take limit (drop offset (sv.notes_newest_first (notes_of u db))))
        × (total ≡ count (owned_by u) db.notes)
  unfolding list_by_user_id
  list_by_user_id-rows db rows total h =
      let (n, first, rest) = bind-eq-ok (count_notes sv u) _ db h in
      let db' = (count_notes sv u db).1 in
      let (ns, second, last) = bind-eq-ok (page_notes sv u limit offset) _ db' rest in
      let same_notes : db'.notes ≡ db.notes = count_notes-notes db in
      let same_rows = page_notes-read db' ns second in
      let same_total = count_notes-read db n first in
      let shown : rows ≡ take limit (drop offset (sv.notes_newest_first (notes_of u db'))) = cc in
      (
        shown
            ∙ ap (λ all. take limit (drop offset (sv.notes_newest_first (select (owned_by u) all))))
                same_notes,
        cc,
      )
