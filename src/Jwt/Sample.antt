-- ===== src/Jwt/Sample.antt =====
-- How the libraries of the tests compare claims and read a text.
use notes_microservices.Prelude.{
  ◌≡◌, String, Bool, true, ◌==◌, ◌&&◌, str_eq, arith, eq_iff, ltb, if◌then◌else◌, ◌<◌, ◌≤◌, refl,
}
use notes_microservices.Failure.{Err, foreign, token_expired, other, is_foreign}
use notes_microservices.Action.{Result, ok, err}
use notes_microservices.Domain.{Time}
use notes_microservices.Jwt.{Claims}

-- The key is the secret, and the claims are the given ones.
abbrev pub matches : String → String → Claims → Claims → Bool
matches secret key c d =
    str_eq key secret
    && str_eq c.user_id d.user_id
    && str_eq c.username d.username
    && str_eq c.token_use d.token_use
    && str_eq c.id d.id
    && c.issued_at == d.issued_at
    && c.expires_at == d.expires_at
    && str_eq c.subject d.subject

pub matches-same :
    (secret key : String) (c d : Claims)
    → matches secret key d c ≡ true
    → (d ≡ c) × (str_eq key secret ≡ true)
matches-same secret key c d same = (
  ground (
    arith,
    eq_iff d.user_id c.user_id,
    eq_iff d.username c.username,
    eq_iff d.token_use c.token_use,
    eq_iff d.id c.id,
    eq_iff d.subject c.subject,
  ),
  ground arith,
)

-- The claims of a text that was signed with the secret, at a time.
abbrev pub parsed : String → Claims → Time → Result String → Result (Bool × Claims)
parsed secret c now (err e) = err e
parsed secret c now (ok key) =
    if str_eq key secret
    then (if ltb now c.expires_at then ok (true, c) else err (foreign token_expired "expired"))
    else err (foreign other "malformed")

pub parsed-early :
    (secret key : String) (c : Claims) (now : Time)
    → str_eq key secret ≡ true
    → now < c.expires_at
    → parsed secret c now (ok key) ≡ ok (true, c)
parsed-early secret key c now known fresh = ground arith

pub parsed-late :
    (secret key : String) (c : Claims) (now : Time)
    → str_eq key secret ≡ true
    → c.expires_at ≤ now
    → (e : Err) × (parsed secret c now (ok key) ≡ err e) × (is_foreign e token_expired ≡ true)
parsed-late secret key c now known stale = (foreign token_expired "expired", ground arith, refl)

pub parsed-claims :
    (secret : String) (c d : Claims) (now : Time) (k : Result String) (valid : Bool)
    → parsed secret c now k ≡ ok (valid, d)
    → d ≡ c
parsed-claims secret c d now (err e) valid made = ground arith
parsed-claims secret c d now (ok key) valid made = ground arith
