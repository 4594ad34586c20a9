-- ===== src/Postgres/Errors.antt =====
-- `mapUniqueViolation` of internal/adapters/postgres/helpers.go.
use Prim.Native.String.{String, [], ◌∷◌}
use Prim.Native.Char.{code}
use notes_microservices.Prelude.{
  Bool, true, false, ◌&&◌, ◌||◌, not, Option, none, some, ◌==◌, str_eq, if◌then◌else◌,
}
use notes_microservices.Failure.{
  Err, PgError, Sentinel, sentinel, pg, wrap, both, detail, email_already_exists,
  user_already_exists,
}
use notes_microservices.Postgres.Store.{Server}

-- strings.HasPrefix and strings.Contains
unfoldable pub has_prefix : String → String → Bool
has_prefix [] s = true
has_prefix (p ∷ ps) [] = false
has_prefix (p ∷ ps) (c ∷ s) = code p == code c && has_prefix ps s

unfoldable pub contains : String → String → Bool
unfolding has_prefix
contains part [] = has_prefix part []
contains part (c ∷ s) = has_prefix part (c ∷ s) || contains part s

abbrev pub unique_violation : String
unique_violation = "23505"

-- The first part that one search finds, or else what the other finds.
abbrev first_found : Option PgError → Option PgError → Option PgError
first_found (some p) q = some p
first_found none q = q

-- `errors.As(err, &pgErr)`
abbrev pub as_pg : Err → Option PgError
as_pg (pg p) = some p
as_pg (wrap s e) = as_pg e
as_pg (both d e) = first_found (as_pg d) (as_pg e)
as_pg (detail e s) = as_pg e
as_pg _ = none

-- The `switch`; its last two cases return the same.
abbrev violated : Server → PgError → Sentinel
violated sv p =
    let constraint = sv.to_lower p.constraint_name in
    if contains "email" constraint || contains "email" p.detail
    then email_already_exists
    else if contains "username" constraint || contains "username" p.detail
    then user_already_exists
    else user_already_exists

abbrev map_pg : Server → Option PgError → Option Err
map_pg sv none = none
map_pg sv (some p) =
    if not (str_eq p.code unique_violation) then none else some (sentinel (violated sv p))

unfoldable pub map_unique_violation : Server → Err → Option Err
map_unique_violation sv e = map_pg sv (as_pg e)
