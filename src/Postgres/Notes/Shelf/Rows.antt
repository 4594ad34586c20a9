-- ===== src/Postgres/Notes/Shelf/Rows.antt =====
-- The table and the map: each statement does to the rows what the request does to the map.
use mathlib.Core.Option
use notes_microservices.Prelude.{
  ℕ, suc, ◌<◌, ◌≡◌, refl, sym, ap, ◌∙◌, String, Bool, true, false, not, ◌&&◌, Option, none, some,
  List, [], ◌∷◌, ◌++◌, All, All-append, find, select, update, str_eq, str_eq_refl, eq_iff, arith,
  inl, inr, Bool-cases, find-update_self, find-update_apart, find-select_self, find-select_apart,
  find-append_refused, find-append_none,
}
use notes_microservices.Domain.{Note}
use notes_microservices.Postgres.Store.{Server, Database}
use notes_microservices.Postgres.Notes.{is_row}
use notes_microservices.Postgres.Notes.Shelf.{Shelf, put, changed, change_at}

-- A row has an id that was given out.
abbrev pub IsNumbered : Server → ℕ → Note → Type 0
IsNumbered sv serial row = (k : ℕ) × (row.id ≡ sv.new_id k) × (k < serial)

-- The rows and the map hold the same notes, and both stand at the same time and turn.
pub record Represents (sv : Server) (db : Database) (sh : Shelf) : Type 0 where
  pub at : (u i : String) → find (is_row i u) db.notes ≡ sh.at u i
  pub clock : db.clock ≡ sh.clock
  pub serial : db.serial ≡ sh.serial
  pub turns : db.turns ≡ sh.turns
  pub numbered : All (IsNumbered sv db.serial) db.notes

-- Two keys of one row are the same.
is_row_same :
    (a b i u : String) (row : Note)
    → is_row a b row ≡ true
    → is_row i u row ≡ true
    → (str_eq a i && str_eq b u) ≡ true
is_row_same a b i u row here there =
    let p = str_eq_refl i in
    let q = str_eq_refl u in
    let e : a ≡ i = ground (arith, eq_iff row.id a, eq_iff row.id i) in
    let d : b ≡ u = ground (arith, eq_iff row.user_id b, eq_iff row.user_id u) in ground arith

is_row_apart :
    (a b i u : String) (row : Note)
    → (str_eq a i && str_eq b u) ≡ false
    → is_row a b row ≡ true
    → is_row i u row ≡ false
is_row_apart a b i u row apart here = elim (Bool-cases (is_row i u row)) [
  | inl there ↦ (let same = is_row_same a b i u row here there in ground arith)
  | inr elsewhere ↦ elsewhere
]

same_key : (a b i u : String) → (str_eq a i && str_eq b u) ≡ true → is_row i u ≡ is_row a b
same_key a b i u same =
    let e : a ≡ i = ground (arith, eq_iff a i) in
    let d : b ≡ u = ground (arith, eq_iff b u) in λ j row. is_row (sym e j) (sym d j) row

change_at-map :
    (n : Note) (time : ℕ) (o : Option Note) → Option.map (changed n time) o ≡ change_at n time o
change_at-map n time none = refl
change_at-map n time (some row) = refl

-- UPDATE writes one place of the map.
pub updated-find :
    (n : Note) (time : ℕ) (rows : List Note) (u i : String)
    → find (is_row i u) (update (is_row n.id n.user_id) (changed n time) rows)
      ≡ put n.user_id n.id
          (change_at n time (find (is_row n.id n.user_id) rows))
          (λ u i. find (is_row i u) rows)
          u
          i
updated-find n time rows u i =
    let p = is_row n.id n.user_id in
    let rows' = update p (changed n time) rows in
    elim (Bool-cases (str_eq n.id i && str_eq n.user_id u)) [
      | inl same ↦
          (let found = ap (λ q. find q rows') (same_key n.id n.user_id i u same) in
            let after = find-update_self p (changed n time) (λ x h. h) rows in
            let result = change_at-map n time (find p rows) in rw same (found ∙ after ∙ result))
      | inr apart ↦ rw apart (
          find-update_apart (is_row i u) p (changed n time)
            (λ x here. let off = is_row_apart n.id n.user_id i u x apart here in (off, off)) rows)
    ]

-- DELETE clears one place of the map.
pub deleted-find :
    (a b : String) (rows : List Note) (u i : String)
    → find (is_row i u) (select (λ row. not (is_row a b row)) rows)
      ≡ put b a none (λ u i. find (is_row i u) rows) u i
deleted-find a b rows u i =
    let rows' = select (λ row. not (is_row a b row)) rows in
    elim (Bool-cases (str_eq a i && str_eq b u)) [
      | inl same ↦
          (let found = ap (λ q. find q rows') (same_key a b i u same) in
            rw same (found ∙ find-select_self (is_row a b) rows))
      | inr apart ↦ rw apart (
          find-select_apart (is_row i u) (is_row a b) (λ x here. is_row_apart a b i u x apart here)
            rows)
    ]

-- An id that was not given out is no row's.
pub fresh_find :
    (sv : Server) (serial : ℕ) (rows : List Note) (u : String)
    → ((m n : ℕ) → sv.new_id m ≡ sv.new_id n → m ≡ n)
    → All (IsNumbered sv serial) rows
    → find (is_row (sv.new_id serial) u) rows ≡ none
fresh_find sv serial [] u unique h = refl
fresh_find sv serial (row ∷ rows) u unique ((k, numbered, below), h) =
    elim (Bool-cases (is_row (sv.new_id serial) u row)) [
      | inl here ↦
          (let same : row.id ≡ sv.new_id serial =
              ground (arith, eq_iff row.id (sv.new_id serial)) in
            let again = unique k serial (sym numbered ∙ same) in absurd (omega arith))
      | inr elsewhere ↦ ground (arith, fresh_find sv serial rows u unique h)
    ]

-- INSERT under a fresh id writes one place of the map.
pub inserted-find :
    (row : Note) (rows : List Note) (u i : String)
    → find (is_row row.id row.user_id) rows ≡ none
    → find (is_row i u) (rows ++ row ∷ [])
      ≡ put row.user_id row.id (some row) (λ u i. find (is_row i u) rows) u i
inserted-find row rows u i fresh = elim (Bool-cases (str_eq row.id i && str_eq row.user_id u)) [
  | inl same ↦
      (let p = str_eq_refl row.id in
        let q = str_eq_refl row.user_id in
        let found = ap (λ k. find k (rows ++ row ∷ [])) (same_key row.id row.user_id i u same) in
        rw same
          (found ∙ find-append_none (is_row row.id row.user_id) rows row fresh (ground arith)))
  | inr apart ↦ rw apart (
      find-append_refused (is_row i u) rows row (
        is_row_apart row.id row.user_id i u row apart
          (let p = str_eq_refl row.id in let q = str_eq_refl row.user_id in ground arith)))
]

-- The numbers of the rows after a change, a deletion and an insertion.
pub updated-IsNumbered :
    (sv : Server) (serial : ℕ) (p : Note → Bool) (n : Note) (time : ℕ) (rows : List Note)
    → All (IsNumbered sv serial) rows
    → All (IsNumbered sv serial) (update p (changed n time) rows)
updated-IsNumbered sv serial p n time [] h = tt
updated-IsNumbered sv serial p n time (row ∷ rows) (k, h) = (
  elim (Bool-cases (p row)) [ inl hit ↦ (rw hit k) | inr miss ↦ (rw miss k) ],
  updated-IsNumbered sv serial p n time rows h,
)

pub deleted-IsNumbered :
    (sv : Server) (serial : ℕ) (p : Note → Bool) (rows : List Note)
    → All (IsNumbered sv serial) rows
    → All (IsNumbered sv serial) (select p rows)
deleted-IsNumbered sv serial p [] h = tt
deleted-IsNumbered sv serial p (row ∷ rows) (k, h) =
    let rest = deleted-IsNumbered sv serial p rows h in
    elim (Bool-cases (p row)) [ inl hit ↦ (rw hit (k, rest)) | inr miss ↦ (rw miss rest) ]

older-IsNumbered :
    (sv : Server) (serial : ℕ) (rows : List Note)
    → All (IsNumbered sv serial) rows
    → All (IsNumbered sv (suc serial)) rows
older-IsNumbered sv serial [] h = tt
older-IsNumbered sv serial (row ∷ rows) ((k, same, below), h) =
    ((k, same, omega arith), older-IsNumbered sv serial rows h)

pub inserted-IsNumbered :
    (sv : Server) (serial : ℕ) (rows : List Note) (row : Note)
    → row.id ≡ sv.new_id serial
    → All (IsNumbered sv serial) rows
    → All (IsNumbered sv (suc serial)) (rows ++ row ∷ [])
inserted-IsNumbered sv serial rows row same h =
    All-append (IsNumbered sv (suc serial)) rows (row ∷ []) (older-IsNumbered sv serial rows h)
      ((serial, same, omega arith), tt)
