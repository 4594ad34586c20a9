-- ===== src/Postgres/Notes/Shelf.antt =====
-- Notes as a map from owners and ids, beside internal/adapters/postgres/notes.go: what a client of
-- the repository may think the table is.
mod Rows
pub mod Runs
mod Tests
use notes_microservices.Prelude.{
  ℕ, suc, ◌+◌, String, Bool, ◌&&◌, Option, none, some, List, [], ◌∷◌, str_eq, if◌then◌else◌,
}
use notes_microservices.Failure.{
  Err, sentinel, wrap, no_rows, is_foreign, note_not_found, note_not_found_or_not_owned,
}
use notes_microservices.Action.{Result, ok, err}
use notes_microservices.Domain.{Time, Note}
use notes_microservices.Postgres.Store.{Server, Database, Turn}
use notes_microservices.Postgres.Notes.{create, get_by_id, update_note, delete}

-- The requests on single notes.
pub data Request : Type 0 where
  create_of : Note → Request
  get_of : String → String → Request
  update_of : Note → Request
  delete_of : String → String → Request

pub data Reply : Type 0 where
  note : Result Note → Reply
  done : Result (Unit {0}) → Reply

abbrev with_note : Result Note × Database → Reply × Database
with_note (r, db) = (note r, db)

abbrev with_done : Result (Unit {0}) × Database → Reply × Database
with_done (r, db) = (done r, db)

-- A request on the repository.
unfoldable pub serve : Server → Request → Database → Reply × Database
serve sv (create_of n) db = with_note (create sv n db)
serve sv (get_of note_id user_id) db = with_note (get_by_id sv note_id user_id db)
serve sv (update_of n) db = with_done (update_note sv n db)
serve sv (delete_of note_id user_id) db = with_done (delete sv note_id user_id db)

unfoldable pub serve_all : Server → List Request → Database → List Reply
unfolding serve
serve_all sv [] db = []
serve_all sv (q ∷ qs) db = let (r, db') = serve sv q db in r ∷ serve_all sv qs db'

-- The map: at an owner and an id there is a note or none.
pub record Shelf : Type 0 where
  pub at : String → String → Option Note
  pub clock : Time
  pub serial : ℕ
  pub turns : List Turn

-- One place of the map is written.
abbrev pub put :
    String → String → Option Note → (String → String → Option Note) → String → String → Option Note
put user_id note_id new f u i = if str_eq note_id i && str_eq user_id u then new else f u i

abbrev pub start : Shelf → List Turn → Option Err × Shelf
start sh [] = (none, sh)
start sh (t ∷ ts) = (t.fault, record sh { clock = sh.clock + t.elapsed; turns = ts })

abbrev pub kept : Server → Note → Shelf → Note
kept sv n sh = record {
  created_at = sh.clock;
  updated_at = sh.clock;
  id = sv.new_id sh.serial;
  user_id = n.user_id;
  title = n.title;
  content = n.content;
}

abbrev pub changed : Note → Time → Note → Note
changed n time row = record row { title = n.title; content = n.content; updated_at = time }

abbrev pub read_result : Option Note → Result Note
read_result none = err (sentinel note_not_found)
read_result (some n) = ok n

abbrev pub write_result : Option Note → Result (Unit {0})
write_result none = err (sentinel note_not_found_or_not_owned)
write_result (some n) = ok tt

abbrev pub change_at : Note → Time → Option Note → Option Note
change_at n time none = none
change_at n time (some row) = some (changed n time row)

-- A request on the map, after its turn: a fault leaves the map alone.
unfoldable pub answer : Server → Request → Option Err → Shelf → Reply × Shelf
answer sv (create_of n) (some e) sh = (note (err (wrap "notes.Create" (wrap "scan row" e))), sh)
answer sv (create_of n) none sh = (
  note (ok (kept sv n sh)),
  record sh {
    at = put n.user_id (sv.new_id sh.serial) (some (kept sv n sh)) sh.at;
    serial = suc sh.serial;
  },
)
answer sv (get_of note_id user_id) (some e) sh = (
  note (
      err (
        if is_foreign e no_rows
        then sentinel note_not_found
        else wrap "notes.GetByID" (wrap "scan row" e))),
  sh,
)
answer sv (get_of note_id user_id) none sh = (note (read_result (sh.at user_id note_id)), sh)
answer sv (update_of n) (some e) sh = (done (err (wrap "notes.Update" e)), sh)
answer sv (update_of n) none sh = (
  done (write_result (sh.at n.user_id n.id)),
  record sh { at = put n.user_id n.id (change_at n sh.clock (sh.at n.user_id n.id)) sh.at },
)
answer sv (delete_of note_id user_id) (some e) sh = (done (err (wrap "notes.Delete" e)), sh)
answer sv (delete_of note_id user_id) none sh =
    (done (write_result (sh.at user_id note_id)), record sh { at = put user_id note_id none sh.at })

unfoldable pub answer_all : Server → List Request → Shelf → List Reply
unfolding answer
answer_all sv [] sh = []
answer_all sv (q ∷ qs) sh =
    let (fault, sh') = start sh sh.turns in
    let (r, sh'') = answer sv q fault sh' in r ∷ answer_all sv qs sh''
