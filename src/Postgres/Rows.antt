-- ===== src/Postgres/Rows.antt =====
-- Reading the rows of a query: `scanAll` of internal/adapters/postgres/helpers.go.
use notes_microservices.Prelude.{
  ◌≡◌, refl, sym, ap, ◌∙◌, Option, none, some, List, [], ◌∷◌, map, arith,
}
use notes_microservices.Failure.{Err, wrap}
use notes_microservices.Action.{Action, Result, ok, err}
use notes_microservices.Postgres.Store.{Database, take_turn}
use notes_microservices.Postgres.Keeps.{IsView, Keeps, view-take_turn}

-- `pgx.Rows`: what `Scan` returns for each row that `Next` finds, and `Err` after the last.
pub record Rows {ℓ} (A : Type ℓ) : Type ℓ where
  pub scans : List (Result A)
  pub last : Option Err

module _ {ℓ} {A : Type ℓ} where
  abbrev with_item : A → Result (List A) → Result (List A)
  with_item a (ok xs) = ok (a ∷ xs)
  with_item a (err e) = err e

  abbrev scan_from : List (Result A) → Option Err → Result (List A)
  scan_from [] none = ok []
  scan_from [] (some e) = err (wrap "rows iteration" e)
  scan_from (ok a ∷ scans) last = with_item a (scan_from scans last)
  scan_from (err e ∷ scans) last = err (wrap "scan rows" e)

  unfoldable pub scan_all : Rows A → Result (List A)
  scan_all rows = scan_from rows.scans rows.last

  -- The rows of a query that found `xs`, with the error that cut the reading short, if any.
  abbrev pub fetched : List A → Option Err → Rows A
  fetched xs fault = record { scans = map (λ x. ok x) xs; last = fault }

  -- Reading takes a turn, as a statement does.
  unfoldable pub read_rows : List A → Action Database (List A)
  unfolding take_turn scan_all
  read_rows xs db = let (fault, db') = take_turn db.turns db in (scan_all (fetched xs fault), db')

  with_item-ok :
      (a : A) (r : Result (List A)) (xs : List A)
      → with_item a r ≡ ok xs
      → (ys : List A) × (r ≡ ok ys) × (xs ≡ a ∷ ys)
  with_item-ok a (ok ys) xs h = (ys, refl, ground arith)
  with_item-ok a (err e) xs h = cc

  scan_from-ok :
      (scans : List (Result A)) (last : Option Err) (xs : List A)
      → scan_from scans last ≡ ok xs
      → (scans ≡ map (λ x. ok x) xs) × (last ≡ none)
  scan_from-ok [] none xs h =
      let empty : xs ≡ [] = ground arith in (ap (map (λ x. ok x)) (sym empty), refl)
  scan_from-ok [] (some e) xs h = cc
  scan_from-ok (ok a ∷ scans) last xs h =
      let (ys, rest, split) = with_item-ok a (scan_from scans last) xs h in
      let (same, ended) = scan_from-ok scans last ys rest in
      (ap (λ l. ok a ∷ l) same ∙ ap (map (λ x. ok x)) (sym split), ended)
  scan_from-ok (err e ∷ scans) last xs h = cc

  -- What is read without an error is every row, in order, and the reading came to its end.
  pub scan_all-ok :
      (rows : Rows A) (xs : List A)
      → scan_all rows ≡ ok xs
      → (rows.scans ≡ map (λ x. ok x) xs) × (rows.last ≡ none)
  unfolding scan_all
  scan_all-ok rows xs h = scan_from-ok rows.scans rows.last xs h

  scan_from-fetched :
      (xs : List A) (fault : Option Err) (ys : List A)
      → scan_from (map (λ x. ok x) xs) fault ≡ ok ys
      → ys ≡ xs
  scan_from-fetched [] none ys h = ground arith
  scan_from-fetched [] (some e) ys h = cc
  scan_from-fetched (x ∷ xs) fault ys h =
      let (zs, rest, split) = with_item-ok x (scan_from (map (λ x. ok x) xs) fault) ys h in
      split ∙ ap (λ l. x ∷ l) (scan_from-fetched xs fault zs rest)

  pub read_rows-ok : (xs ys : List A) (db : Database) → (read_rows xs db).0 ≡ ok ys → ys ≡ xs
  unfolding read_rows
  read_rows-ok xs ys db h =
      let (fault, db') = take_turn db.turns db in scan_from-fetched xs fault ys h

module _ {ℓ κ} {B : Type ℓ} {A : Type κ} {view : Database → B} where
  pub Keeps-read_rows : (xs : List A) → IsView view → Keeps view (read_rows xs)
  unfolding read_rows
  Keeps-read_rows xs v = record { at = λ db. view-take_turn v db.turns db }
