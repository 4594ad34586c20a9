-- ===== src/Postgres/Consistent.antt =====
-- What the constraints of migrations/auth say of the tables of users and tokens.
pub mod Keys
use notes_microservices.Prelude.{◌≡◌, true, List, any, All}
use notes_microservices.Domain.{User, RefreshToken}
use notes_microservices.Postgres.Users.{has_id}
use notes_microservices.Postgres.Consistent.Keys.{AllDistinct}

abbrev pub IsOwned : List User → RefreshToken → Type 0
IsOwned us t = any (has_id t.user_id) us ≡ true

-- No two users have the same address or the same name, no two tokens the same hash, and every token
-- is a user's.
pub record IsConsistent (us : List User) (ts : List RefreshToken) : Type 0 where
  pub emails : AllDistinct (λ u. u.email) us
  pub usernames : AllDistinct (λ u. u.username) us
  pub hashes : AllDistinct (λ t. t.token) ts
  pub owned : All (IsOwned us) ts
