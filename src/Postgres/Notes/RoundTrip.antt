-- ===== src/Postgres/Notes/RoundTrip.antt =====
-- What is stored is what is read.
use notes_microservices.Prelude.{
  ◌≡◌, none, [], find, str_eq, str_eq_refl, arith, find-none_mono, find-append_none,
}
use notes_microservices.Action.{ok}
use notes_microservices.Domain.{Note}
use notes_microservices.Postgres.Store.{Server, Database, take_turn, statement, scan_one}
use notes_microservices.Postgres.Notes.{create, get_by_id, is_row}

-- The row that a note is stored as.
abbrev pub stored : Server → Database → Note → Note
stored sv db n = record {
  created_at = db.clock;
  updated_at = db.clock;
  id = sv.new_id db.serial;
  user_id = n.user_id;
  title = n.title;
  content = n.content;
}

-- A note that is created, under an id that no row has, is returned with the author, the title and the
-- content that were given, and a look-up by its author finds that row, if the database answers.
pub created_is_found :
    (sv : Server) (n : Note) (db : Database)
    → db.turns ≡ []
    → find (λ row. str_eq row.id (sv.new_id db.serial)) db.notes ≡ none
    → ((create sv n db).0 ≡ ok (stored sv db n))
      × ((get_by_id sv (sv.new_id db.serial) n.user_id (create sv n db).1).0 ≡ ok (stored sv db n))
unfolding create get_by_id scan_one statement take_turn
created_is_found sv n db quiet fresh =
    let id = sv.new_id db.serial in
    let absent =
      find-none_mono (is_row id n.user_id) (λ row. str_eq row.id id) db.notes
        (λ row h. ground arith) fresh in
    let found =
      find-append_none (is_row id n.user_id) db.notes (stored sv db n) absent
        (let p = str_eq_refl id in let q = str_eq_refl n.user_id in ground arith) in
    (ground arith, ground arith)
