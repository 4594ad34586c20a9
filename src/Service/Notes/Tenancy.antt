-- ===== src/Service/Notes/Tenancy.antt =====
-- Users do not see or change one another's notes.
use mathlib.Core.Path.{subst}
use notes_microservices.Prelude.{
  ℕ, ℤ, ◌≤◌, ◌≡◌, ◌≢◌, String, Bool, true, Option, none, some, List, All, length, count, take, drop,
  arith, ◌∙◌, All-of_count, count_of_All, not, sym, ap, All-take, All-drop, All-select, length-take,
}
use notes_microservices.Failure.{Err}
use notes_microservices.Action.{ok}
use notes_microservices.Domain.{Note, apply_update, new_note}
use notes_microservices.Domain.Entities.{new_note-owner, apply_update-owner}
use notes_microservices.App.Notes.{save_note, as_ℕ, clamp_limit, clamp_offset}
use notes_microservices.App.Notes
use notes_microservices.Postgres.Store.{Server, Database, now}
use notes_microservices.Postgres.Keeps.{
  Keeps, Keeps-pure, Keeps-fail, Keeps-lift, Keeps-within, Keeps-bind, Keeps-bind_result,
}
use notes_microservices.Postgres.Notes.{owned_by, note_repository}
use notes_microservices.Postgres.Notes.Isolation.{
  notes_of, create-Keeps_others, get_by_id-Keeps_others, list-Keeps_others, update-Keeps_others,
  delete-Keeps_others, get_by_id-owner, list_by_user_id-rows,
}
use notes_microservices.Service.Notes.{create_note, get_note, list_notes, update_note, delete_note}
use notes_microservices.Action.Laws.{context_of-eq-ok}
use notes_microservices.App.Notes.Limits.{clamp_limit-bounds}

module _ (sv : Server) (u v : String) (other : u ≢ v) where
  create_note-Keeps : (title content : String) → Keeps (notes_of v) (create_note sv u title content)
  unfolding Notes.create_note
  create_note-Keeps title content = record {
    at = λ db.
        (Keeps-within "create note" _ (
            Keeps-bind_result _ _ (Keeps-lift (new_note db.clock u title content)) (λ _ n built.
              create-Keeps_others sv u v other n
                (new_note-owner db.clock u title content n built)))).at
          db;
  }

  save_note-Keeps :
      (r : Option Err × Note)
      → r.1.user_id ≡ u
      → Keeps (notes_of v) (save_note now (note_repository sv) r)
  save_note-Keeps (some e, n) mine = Keeps-fail e
  save_note-Keeps (none, n) mine =
      Keeps-bind _ _ (update-Keeps_others sv u v other n mine) (λ _. Keeps-pure n)

  update_note-Keeps :
      (note_id : String) (title content : Option String)
      → Keeps (notes_of v) (update_note sv u note_id title content)
  unfolding Notes.update_note
  update_note-Keeps note_id title content = Keeps-within _ _ (
      Keeps-bind_result _ _ (get_by_id-Keeps_others sv u v other note_id) (λ db n found. record {
        at = λ db'.
            (save_note-Keeps (apply_update db'.clock title content n) (
                apply_update-owner db'.clock title content n
                ∙ get_by_id-owner sv note_id u db n found)).at
              db';
      }))

  -- Whatever one user asks of the notes service, and whatever faults the database has on the way, the
  -- notes of every other user are what they were.
  pub others_unchanged :
      (note_id title content : String) (new_title new_content : Option String) (limit offset : ℤ)
      (db : Database)
      → (notes_of v (create_note sv u title content db).1 ≡ notes_of v db)
        × (notes_of v (get_note sv u note_id db).1 ≡ notes_of v db)
        × (notes_of v (list_notes sv u limit offset db).1 ≡ notes_of v db)
        × (notes_of v (update_note sv u note_id new_title new_content db).1 ≡ notes_of v db)
        × (notes_of v (delete_note sv u note_id db).1 ≡ notes_of v db)
  unfolding Notes.get_note Notes.list_notes Notes.delete_note
  others_unchanged note_id title content new_title new_content limit offset db = (
    (create_note-Keeps title content).at db,
    (get_by_id-Keeps_others sv u v other note_id).at db,
    (list-Keeps_others sv u v other _ _).at db,
    (update_note-Keeps note_id new_title new_content).at db,
    (delete-Keeps_others sv u v other note_id).at db,
  )

notes_newest_first-All :
    (sv : Server) (p : Note → Bool) (xs : List Note)
    → ((q : Note → Bool) (ys : List Note) → count q (sv.notes_newest_first ys) ≡ count q ys)
    → All (λ n. p n ≡ true) xs
    → All (λ n. p n ≡ true) (sv.notes_newest_first xs)
notes_newest_first-All sv p xs reorders h =
    All-of_count p (sv.notes_newest_first xs) (reorders (λ n. not (p n)) xs ∙ count_of_All p xs h)

-- What a user reads is the user's own, if sorting only reorders rows: the note that `GetNote`
-- returns, and every note of a page of `ListNotes`; the page has at most 100 notes.
pub reads_own :
    (sv : Server) (u note_id : String) (limit offset : ℤ) (db : Database) (n : Note)
    (rows : List Note) (total : ℕ)
    → ((q : Note → Bool) (ys : List Note) → count q (sv.notes_newest_first ys) ≡ count q ys)
    → (get_note sv u note_id db).0 ≡ ok n
    → (list_notes sv u limit offset db).0 ≡ ok (rows, total)
    → (n.user_id ≡ u) × All (λ n. owned_by u n ≡ true) rows × (length rows ≤ 100)
unfolding Notes.get_note Notes.list_notes
reads_own sv u note_id limit offset db n rows total reorders got listed =
    let page = as_ℕ (clamp_limit limit) in
    let skipped = as_ℕ (clamp_offset offset) in
    let sorted = sv.notes_newest_first (notes_of u db) in
    let (shown, _) =
      list_by_user_id-rows sv u page skipped db rows total
        (context_of-eq-ok "list notes" _ listed) in
    let P : Note → Type 0 = λ n. owned_by u n ≡ true in
    let own : All P (take page (drop skipped sorted)) = All-take P page _ (
      All-drop P skipped _ (
        notes_newest_first-All sv (owned_by u) (notes_of u db) reorders
          (All-select (owned_by u) db.notes))) in
    (
      get_by_id-owner sv note_id u db n (context_of-eq-ok "get note" _ got),
      subst (All P) (sym shown) own,
      omega (
        arith,
        ap (λ (l : List Note). length l) shown,
        length-take page (drop skipped sorted),
        clamp_limit-bounds limit,
      ),
    )
