-- ===== src/Service/Notes/Tests.antt =====
-- Two users of the notes service, on the fixture.
use notes_microservices.Prelude.{
  [], ◌∷◌, str_neq, pos, ◌≤◌, ◌≡◌, refl, some, none, true, All, length,
}
use notes_microservices.Action.{ok}
use notes_microservices.App.Notes
use notes_microservices.Postgres.Store.{scan_one, statement}
use notes_microservices.Postgres.Rows.{read_rows}
use notes_microservices.Postgres.Notes.{owned_by, get_by_id, list_by_user_id}
use notes_microservices.Postgres.Notes.Isolation.{notes_of}
use notes_microservices.Postgres.Fixture.{server, database, bobs_note}
use notes_microservices.Service.Notes.{create_note, get_note, list_notes, update_note, delete_note}
use notes_microservices.Service.Notes.Tenancy.{others_unchanged, reads_own}

others_unchanged_example :
    (notes_of "u1" (create_note server "u2" "Bread" "one" database).1 ≡ notes_of "u1" database)
    × (notes_of "u1" (get_note server "u2" "n1" database).1 ≡ notes_of "u1" database)
    × (notes_of "u1" (list_notes server "u2" (pos 5) (pos 0) database).1 ≡ notes_of "u1" database)
    × (notes_of "u1" (update_note server "u2" "n1" (some "Mine") none database).1
        ≡ notes_of "u1" database)
    × (notes_of "u1" (delete_note server "u2" "n1" database).1 ≡ notes_of "u1" database)
others_unchanged_example =
    others_unchanged server "u2" "u1" (str_neq "u2" "u1" refl) "n1" "Bread" "one" (some "Mine") none
      (pos 5) (pos 0) database

get_note_test : (get_note server "u1" "n1" database).0 ≡ ok bobs_note
unfolding Notes.get_note get_by_id scan_one
get_note_test = refl

list_notes_test : (list_notes server "u1" (pos 5) (pos 0) database).0 ≡ ok (bobs_note ∷ [], 1)
unfolding Notes.list_notes list_by_user_id statement read_rows
list_notes_test = refl

reads_own_example :
    (bobs_note.user_id ≡ "u1")
    × All (λ n. owned_by "u1" n ≡ true) (bobs_note ∷ [])
    × (length (bobs_note ∷ []) ≤ 100)
reads_own_example =
    reads_own server "u1" "n1" (pos 5) (pos 0) database bobs_note (bobs_note ∷ []) 1 (λ q ys. refl)
      get_note_test list_notes_test
