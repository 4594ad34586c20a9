-- ===== src/Postgres/Notes/Shelf/Tests.antt =====
-- Requests on an empty table, with a fault among them.
use Prim.Native.String.{String}
use notes_microservices.Prelude.{ℕ, zero, suc, ◌≡◌, refl, ap, none, some, List, [], ◌∷◌}
use notes_microservices.Failure.{foreign, other}
use notes_microservices.Postgres.Store.{Server, Database, Turn}
use notes_microservices.Postgres.Fixture.{server, database, bobs_note}
use notes_microservices.Postgres.Notes.Shelf.{
  Request, Shelf, serve_all, answer_all, create_of, get_of, delete_of,
}
use notes_microservices.Postgres.Notes.Shelf.Runs.{serve_all-answer_all}

-- One letter more for each id.
abbrev id_of : ℕ → String
id_of zero = ""
id_of (suc n) = String.◌∷◌ "i" (id_of n)

tail_of : String → String
tail_of String.[] = ""
tail_of (String.◌∷◌ c s) = s

id_of_unique : (m n : ℕ) → id_of m ≡ id_of n → m ≡ n
unfolding tail_of
id_of_unique zero zero same = refl
id_of_unique zero (suc n) same = cc
id_of_unique (suc m) zero same = cc
id_of_unique (suc m) (suc n) same = ap suc (id_of_unique m n (ap tail_of same))

abbrev numbering : Server
numbering = record server { new_id = id_of }

abbrev late_fault : Turn
late_fault = record { elapsed = 5; fault = some (foreign other "reset") }

abbrev calm : Turn
calm = record { elapsed = 2; fault = none }

abbrev empty_table : Database
empty_table = record database { notes = []; turns = calm ∷ calm ∷ late_fault ∷ calm ∷ [] }

abbrev empty_shelf : Shelf
empty_shelf = record { at = λ u i. none; clock = 10; serial = 0; turns = empty_table.turns }

-- A note is created, read, deleted in vain, then deleted, and missed.
abbrev requests : List Request
requests =
    create_of bobs_note
    ∷ get_of "" "u1"
    ∷ delete_of "" "u1"
    ∷ delete_of "" "u1"
    ∷ get_of "" "u1"
    ∷ []

serve_all-answer_all_example :
    serve_all numbering requests empty_table ≡ answer_all numbering requests empty_shelf
serve_all-answer_all_example =
    serve_all-answer_all numbering id_of_unique requests empty_table empty_shelf
      (record { at = λ u i. refl; clock = refl; serial = refl; turns = refl; numbered = tt })
