-- ===== src/Postgres/Notes/Shelf/Runs.antt =====
-- The repository answers as the map does.
use mathlib.Core.Path.{subst}
use notes_microservices.Prelude.{
  ℕ, suc, ◌+◌, ◌≡◌, refl, sym, ap, ◌∙◌, String, Bool, not, Option, none, some, List, [], ◌∷◌, find,
  select, update, count, arith, inl, inr, Option-cases, count_of_none, count_of_some,
}
use notes_microservices.Failure.{Err, note_not_found, note_not_found_or_not_owned}
use notes_microservices.Action.{ok, within, handle, fail, pure, ◌>>=◌}
use notes_microservices.Domain.{Note}
use notes_microservices.Postgres.Store.{
  Server, Database, Turn, take_turn, unless_fault, found_row, statement, scan_one,
}
use notes_microservices.Postgres.Notes.{
  is_row, update_rows, delete_rows, insert_note, create, get_by_id, update_note, delete,
  require_rows, not_found_or,
}
use notes_microservices.Postgres.Notes.Shelf.{
  Request, Reply, Shelf, put, kept, changed, start, answer, create_of, get_of, update_of, delete_of,
  note, done, with_note, with_done, serve, serve_all, answer_all, write_result,
}
use notes_microservices.Postgres.Notes.Shelf.Rows.{
  Represents, updated-find, deleted-find, fresh_find, inserted-find, updated-IsNumbered,
  deleted-IsNumbered, inserted-IsNumbered,
}

-- The same reply, and states that hold the same notes.
abbrev Agree : Server → Reply × Database → Reply × Shelf → Type 0
Agree sv p q = (p.0 ≡ q.0) × Represents sv p.1 q.1

put_congr :
    (a b : String) (new new' : Option Note) (f g : String → String → Option Note) (u i : String)
    → new ≡ new'
    → f u i ≡ g u i
    → put a b new f u i ≡ put a b new' g u i
put_congr a b new new' f g u i same rest = ground arith

-- What a statement that counts its rows returns.
require_rows-count :
    (sv : Server) (p : Note → Bool) (rows : List Note) (db : Database)
    → require_rows sv note_not_found_or_not_owned (count p rows) db
      ≡ (write_result (find p rows), db)
require_rows-count sv p rows db = elim (Option-cases (find p rows)) [
  | inl missing ↦ (let none_counted = count_of_none p rows missing in ground arith)
  | inr (row, found) ↦ (let (n, counted) = count_of_some p rows row found in ground arith)
]

kept_congr :
    (sv : Server) (n : Note) (db : Database) (sh : Shelf)
    → Represents sv db sh
    → ◌≡◌ {A = Note}
        (record n { created_at = db.clock; updated_at = db.clock; id = sv.new_id db.serial })
        (kept sv n sh)
kept_congr sv n db sh r = let c = r.clock in let k = r.serial in ground arith

module _ (sv : Server) (unique : (m n : ℕ) → sv.new_id m ≡ sv.new_id n → m ≡ n) where
  -- A request after its turn.
  abbrev after_turn : Request → Option Err → Database → Reply × Database
  after_turn (create_of n) fault db =
      with_note
        (within "notes.Create" (within "scan row" (unless_fault fault (insert_note sv n))) db)
  after_turn (get_of i u) fault db = with_note (
      let (row, db') =
        within "scan row" (unless_fault fault (λ d. (found_row sv (find (is_row i u) d.notes), d)))
          db in
      handle row pure (λ e. fail (not_found_or sv note_not_found "notes.GetByID" e)) db')
  after_turn (update_of n) fault db = with_done (
      (within "notes.Update" (unless_fault fault (update_rows sv n))
          >>= require_rows sv note_not_found_or_not_owned)
        db)
  after_turn (delete_of i u) fault db = with_done (
      (within "notes.Delete" (unless_fault fault (delete_rows sv i u))
          >>= require_rows sv note_not_found_or_not_owned)
        db)

  created :
      (n : Note) (fault : Option Err) (db : Database) (sh : Shelf)
      → Represents sv db sh
      → Agree sv (after_turn (create_of n) fault db) (answer sv (create_of n) fault sh)
  unfolding answer insert_note
  created n (some e) db sh r = (refl, r)
  created n none db sh r =
      let row : Note = record n {
        created_at = db.clock;
        updated_at = db.clock;
        id = sv.new_id db.serial;
      } in
      let same = kept_congr sv n db sh r in
      (
        ap (λ k. note (ok k)) same,
        record {
          at = λ u i.
              inserted-find row db.notes u i
                (fresh_find sv db.serial db.notes n.user_id unique r.numbered)
              ∙ ap
                  (λ k.
                    put n.user_id (sv.new_id k) (some row) (λ u i. find (is_row i u) db.notes) u i)
                  r.serial
              ∙ put_congr n.user_id (sv.new_id sh.serial) (some row) (some (kept sv n sh))
                  (λ u i. find (is_row i u) db.notes) sh.at u i (ap (λ k. some k) same) (r.at u i);
          clock = r.clock;
          serial = ap suc r.serial;
          turns = r.turns;
          numbered = inserted-IsNumbered sv db.serial db.notes row refl r.numbered;
        },
      )

  got :
      (i u : String) (fault : Option Err) (db : Database) (sh : Shelf)
      → Represents sv db sh
      → Agree sv (after_turn (get_of i u) fault db) (answer sv (get_of i u) fault sh)
  unfolding answer
  got i u (some e) db sh r = (refl, r)
  got i u none db sh r =
      let same = r.at u i in
      elim (Option-cases (find (is_row i u) db.notes)) [
        | inl missing ↦ (ground arith, ground (arith, r))
        | inr (row, found) ↦ (ground arith, ground (arith, r))
      ]

  updated :
      (n : Note) (fault : Option Err) (db : Database) (sh : Shelf)
      → Represents sv db sh
      → Agree sv (after_turn (update_of n) fault db) (answer sv (update_of n) fault sh)
  unfolding answer update_rows
  updated n (some e) db sh r = (refl, r)
  updated n none db sh r =
      let db' : Database = record db {
        notes = update (is_row n.id n.user_id) (changed n db.clock) db.notes;
      } in
      let ran = require_rows-count sv (is_row n.id n.user_id) db.notes db' in
      let here = r.at n.user_id n.id in
      (
        ap (λ p. done p.0) ran ∙ ap (λ o. done (write_result o)) here,
        subst (λ p. Represents sv p.1 (answer sv (update_of n) none sh).1) (sym ran)
            (record {
              at = λ u i.
                  updated-find n db.clock db.notes u i
                  ∙ put_congr n.user_id n.id _ _ (λ v j. find (is_row j v) db.notes) sh.at u i
                      (ground arith) (r.at u i);
              clock = r.clock;
              serial = r.serial;
              turns = r.turns;
              numbered =
                  updated-IsNumbered sv db.serial (is_row n.id n.user_id) n db.clock db.notes
                    r.numbered;
            }),
      )

  deleted :
      (i u : String) (fault : Option Err) (db : Database) (sh : Shelf)
      → Represents sv db sh
      → Agree sv (after_turn (delete_of i u) fault db) (answer sv (delete_of i u) fault sh)
  unfolding answer delete_rows
  deleted i u (some e) db sh r = (refl, r)
  deleted i u none db sh r =
      let rest : Note → Bool = λ row. not (is_row i u row) in
      let db' : Database = record db { notes = select rest db.notes } in
      let ran = require_rows-count sv (is_row i u) db.notes db' in
      (
        ap (λ p. done p.0) ran ∙ ap (λ o. done (write_result o)) (r.at u i),
        subst (λ p. Represents sv p.1 (answer sv (delete_of i u) none sh).1) (sym ran)
            (record {
              at = λ v j.
                  deleted-find i u db.notes v j
                  ∙ put_congr u i none none (λ v j. find (is_row j v) db.notes) sh.at v j refl
                      (r.at v j);
              clock = r.clock;
              serial = r.serial;
              turns = r.turns;
              numbered = deleted-IsNumbered sv db.serial rest db.notes r.numbered;
            }),
      )

  -- Both take the same turn.
  after_start :
      (q : Request) (fault : Option Err) (db : Database) (sh : Shelf)
      → Represents sv db sh
      → Agree sv (after_turn q fault db) (answer sv q fault sh)
  after_start (create_of n) fault db sh r = created n fault db sh r
  after_start (get_of i u) fault db sh r = got i u fault db sh r
  after_start (update_of n) fault db sh r = updated n fault db sh r
  after_start (delete_of i u) fault db sh r = deleted i u fault db sh r

  begun :
      (q : Request) (ts : List Turn) (db : Database) (sh : Shelf)
      → Represents sv db sh
      → Agree sv
          (let (fault, db') = take_turn ts db in after_turn q fault db')
          (answer sv q (start sh ts).0 (start sh ts).1)
  unfolding take_turn
  begun q [] db sh r = after_start q none db sh r
  begun q (t ∷ ts) db sh r =
      after_start q t.fault (record db { clock = db.clock + t.elapsed; turns = ts })
        (record sh { clock = sh.clock + t.elapsed; turns = ts })
        (record {
          at = r.at;
          clock = ap (λ c. c + t.elapsed) r.clock;
          serial = r.serial;
          turns = refl;
          numbered = r.numbered;
        })

  serve-after_turn :
      (q : Request) (db : Database)
      → serve sv q db ≡ (let (fault, db') = take_turn db.turns db in after_turn q fault db')
  unfolding serve create get_by_id update_note delete scan_one statement
  serve-after_turn (create_of n) db = refl
  serve-after_turn (get_of i u) db = refl
  serve-after_turn (update_of n) db = refl
  serve-after_turn (delete_of i u) db = refl

  served :
      (q : Request) (db : Database) (sh : Shelf)
      → Represents sv db sh
      → Agree sv (serve sv q db) (answer sv q (start sh sh.turns).0 (start sh sh.turns).1)
  served q db sh r =
      subst (λ ts. Agree sv (serve sv q db) (answer sv q (start sh ts).0 (start sh ts).1)) r.turns
        (subst (λ p. Agree sv p (answer sv q (start sh db.turns).0 (start sh db.turns).1))
          (sym (serve-after_turn q db)) (begun q db.turns db sh r))

  -- A run of requests on single notes, with whatever faults and delays, gets the replies that a map
  -- from owners and ids to notes gives, from a table and a map that hold the same notes, if the ids
  -- of the server differ.
  pub serve_all-answer_all :
      (qs : List Request) (db : Database) (sh : Shelf)
      → Represents sv db sh
      → serve_all sv qs db ≡ answer_all sv qs sh
  unfolding serve_all answer_all
  serve_all-answer_all [] db sh r = refl
  serve_all-answer_all (q ∷ qs) db sh r =
      let (same, r') = served q db sh r in
      let rest = serve_all-answer_all qs (serve sv q db).1 _ r' in ground arith
