-- ===== src/Postgres/Tokens/Spent.antt =====
-- Refresh tokens that no statement can consume any more.
use notes_microservices.Prelude.{
  ◌≤◌, ◌≡◌, refl, String, Bool, true, false, Option, none, some, List, [], ◌∷◌, ◌++◌, All,
  All-append, any, find, update, str_eq, arith, eq_iff, ap,
}
use notes_microservices.Failure.{Err}
use notes_microservices.Action.{ok}
use notes_microservices.Domain.{Time, RefreshToken}
use notes_microservices.Postgres.Store.{Server, Database, Turn, take_turn, unless_fault}
use notes_microservices.Postgres.Tokens.{has_token, is_active, revoked, insert_token}

-- No row of the token can be exchanged at the time `at`.
abbrev pub IsSpent : String → Time → List RefreshToken → Type 0
IsSpent hash at = All (λ t. is_active at hash t ≡ false)

pub IsSpent-later :
    (hash : String) (at later : Time) (ts : List RefreshToken)
    → at ≤ later
    → IsSpent hash at ts
    → IsSpent hash later ts
IsSpent-later hash at later [] le h = tt
IsSpent-later hash at later (t ∷ ts) le (p, h) = (ground arith, IsSpent-later hash at later ts le h)

pub find-IsSpent :
    (hash : String) (at : Time) (ts : List RefreshToken)
    → IsSpent hash at ts
    → find (is_active at hash) ts ≡ none
find-IsSpent hash at [] h = refl
find-IsSpent hash at (t ∷ ts) (p, h) = ground (arith, find-IsSpent hash at ts)

-- The consumption spends the token.
pub update-IsSpent :
    (hash : String) (at : Time) (ts : List RefreshToken)
    → IsSpent hash at (update (is_active at hash) revoked ts)
update-IsSpent hash at [] = tt
update-IsSpent hash at (t ∷ ts) = (ground arith, update-IsSpent hash at ts)

-- What was found active is still a row of the token after the consumption.
pub any-update :
    (hash : String) (at : Time) (ts : List RefreshToken) (t : RefreshToken)
    → find (is_active at hash) ts ≡ some t
    → any (has_token hash) (update (is_active at hash) revoked ts) ≡ true
any-update hash at [] t h = cc
any-update hash at (x ∷ xs) t h = ground (arith, any-update hash at xs t)

-- A turn leaves the rows.
pub take_turn-tokens : (ts : List Turn) (db : Database) → (take_turn ts db).1.tokens ≡ db.tokens
unfolding take_turn
take_turn-tokens [] db = refl
take_turn-tokens (t ∷ ts) db = refl

row_apart-split :
    (hash other : String) (ts : List RefreshToken)
    → any (has_token other) ts ≡ false
    → any (has_token hash) ts ≡ true
    → (b : Bool) → str_eq other hash ≡ b
    → b ≡ false
row_apart-split hash other ts absent present false h = refl
row_apart-split hash other ts absent present true h =
    let same_any : any (has_token other) ts ≡ any (has_token hash) ts =
      ap (λ s. any (has_token s) ts) ((eq_iff other hash).0 h) in
    cc

-- A hash that no row has is not the hash of a row.
row_apart :
    (hash other : String) (ts : List RefreshToken)
    → any (has_token other) ts ≡ false
    → any (has_token hash) ts ≡ true
    → str_eq other hash ≡ false
row_apart hash other ts absent present =
    row_apart-split hash other ts absent present (str_eq other hash) refl

module _ (sv : Server) (hash : String) where
  appended-IsSpent :
      (at : Time) (ts : List RefreshToken) (row : RefreshToken)
      → any (has_token row.token) ts ≡ false
      → any (has_token hash) ts ≡ true
      → IsSpent hash at ts
      → IsSpent hash at (ts ++ row ∷ [])
  appended-IsSpent at ts row absent present spent =
      let apart = row_apart hash row.token ts absent present in
      let refused : is_active at hash row ≡ false = ground arith in
      All-append (λ t. is_active at hash t ≡ false) ts (row ∷ []) spent (refused, tt)

  -- The insertion after the consumption, at the end of its turn.
  pub inserted-IsSpent :
      (at : Time) (new : RefreshToken) (fault : Option Err) (db : Database)
      → (unless_fault fault (insert_token sv new) db).0 ≡ ok tt
      → any (has_token hash) db.tokens ≡ true
      → IsSpent hash at db.tokens
      → IsSpent hash at (unless_fault fault (insert_token sv new) db).1.tokens
  unfolding insert_token
  inserted-IsSpent at new (some e) db done present spent = spent
  inserted-IsSpent at new none db done present spent = ground (
    arith,
    appended-IsSpent at db.tokens (record new { created_at = db.clock; id = sv.new_id db.serial }),
  )
