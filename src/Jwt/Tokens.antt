-- ===== src/Jwt/Tokens.antt =====
-- What the tokens of an issuer are good for.
use notes_microservices.Prelude.{
  ℕ, ◌≤◌, ◌<◌, ◌≡◌, ◌≢◌, refl, ℤ, String, len, Bool, true, false, ◌==◌, str_neq, arith, eq_iff, ap,
  ◌∙◌,
}
use notes_microservices.Failure.{Err, sentinel, is_foreign, token_expired, expired_jwt_token}
use notes_microservices.Action.{Result, ok, err}
use notes_microservices.Domain.{Time}
use notes_microservices.Jwt.{
  JwtLibrary, Claims, Service, new_access_verifier, generate_token, token_claims, key_of,
  checked_claims, validate_access_token, add_duration, token_use_access, token_use_refresh,
}

-- What the library promises of a signed text: under its key it is valid before its claims expire, it
-- is reported as expired afterwards, and whenever it parses, the claims are those that were signed.
pub record IsSound (lib : JwtLibrary) : Type 0 where
  pub verifies :
      (key token : String) (c : Claims) (now : Time)
      → lib.signed_string key c ≡ ok token
      → now < c.expires_at
      → lib.parse now (ok key) token ≡ ok (true, c)
  pub expires :
      (key token : String) (c : Claims) (now : Time)
      → lib.signed_string key c ≡ ok token
      → c.expires_at ≤ now
      → (e : Err) × (lib.parse now (ok key) token ≡ err e) × (is_foreign e token_expired ≡ true)
  pub decodes :
      (key token : String) (c d : Claims) (now : Time) (k : Result String) (valid : Bool)
      → lib.signed_string key c ≡ ok token
      → lib.parse now k token ≡ ok (valid, d)
      → d ≡ c

-- Claims of another use are refused.
not_access :
    (r : Result (Bool × Claims)) (id : String)
    → ((valid : Bool) (d : Claims) → r ≡ ok (valid, d) → d.token_use ≡ token_use_refresh)
    → checked_claims r ≢ ok id
not_access (err e) id used taken = ground arith
not_access (ok (valid, d)) id used taken =
    let other = used valid d refl in
    let differs = str_neq token_use_refresh token_use_access refl in
    ground (arith, eq_iff d.token_use token_use_access)

-- The user that accepted claims name.
checked_claims-user :
    (r : Result (Bool × Claims)) (id : String)
    → checked_claims r ≡ ok id
    → (valid : Bool) × (d : Claims) × (r ≡ ok (valid, d)) × (id ≡ d.user_id)
checked_claims-user (err e) id taken = ground arith
checked_claims-user (ok (valid, d)) id taken = (valid, d, refl, ground arith)

module _ (lib : JwtLibrary) where
  generate_token-signed :
      (user_id username : String) (ttl : ℤ) (token_use key : String) (now : Time) (n : ℕ)
      (token : String) (expires_at : Time)
      → generate_token lib user_id username ttl token_use key now n ≡ ok (token, expires_at)
      → ((len key == 0) ≡ false)
        × (lib.signed_string key
              (token_claims lib user_id username token_use now (add_duration now ttl) n)
            ≡ ok token)
  unfolding generate_token
  generate_token-signed user_id username ttl token_use key now n token expires_at made =
      ground arith

  -- An access token proves its user to a verifier with the same secret until the time in its claims,
  -- and from then on is refused as expired.
  pub access_token_lifetime :
      IsSound lib
      → (user_id username secret : String) (ttl : ℤ) (now early late : Time) (n : ℕ)
        (token : String) (expires_at : Time)
      → generate_token lib user_id username ttl token_use_access secret now n
        ≡ ok (token, expires_at)
      → user_id ≢ ""
      → early < lib.numeric_date (add_duration now ttl)
      → lib.numeric_date (add_duration now ttl) ≤ late
      → (validate_access_token lib (new_access_verifier secret) early token ≡ ok user_id)
        × (validate_access_token lib (new_access_verifier secret) late token
            ≡ err (sentinel expired_jwt_token))
  unfolding validate_access_token
  access_token_lifetime sound user_id username secret ttl now early late n token expires_at made
        named fresh stale =
      let c = token_claims lib user_id username token_use_access now (add_duration now ttl) n in
      let (keyed, signed) =
        generate_token-signed user_id username ttl token_use_access secret now n token expires_at
          made in
      let valid = sound.verifies secret token c early signed fresh in
      let (e, refused, old) = sound.expires secret token c late signed stale in
      (ground (arith, eq_iff user_id ""), ground arith)

  -- A refresh token is no access token: no verifier takes it, whatever its secret and the time, not
  -- even one that shares the secret of the refresh tokens.
  pub refresh_token_refused :
      IsSound lib
      → (user_id username secret : String) (ttl : ℤ) (now at : Time) (n : ℕ) (token : String)
        (expires_at : Time) (verifier : Service) (id : String)
      → generate_token lib user_id username ttl token_use_refresh secret now n
        ≡ ok (token, expires_at)
      → validate_access_token lib verifier at token ≢ ok id
  unfolding validate_access_token
  refresh_token_refused sound user_id username secret ttl now at n token expires_at verifier id made
        accepted =
      let c = token_claims lib user_id username token_use_refresh now (add_duration now ttl) n in
      let (keyed, signed) =
        generate_token-signed user_id username ttl token_use_refresh secret now n token expires_at
          made in
      not_access (lib.parse at (key_of verifier.access_key) token) id
        (λ valid d parsed.
          ap (λ (k : Claims). k.token_use)
            (sound.decodes secret token c d at (key_of verifier.access_key) valid signed parsed))
        accepted

  -- Whoever takes a token takes it for the user whom it was made for.
  pub validated_user :
      IsSound lib
      → (user_id username secret token_use : String) (ttl : ℤ) (now at : Time) (n : ℕ)
        (token : String) (expires_at : Time) (verifier : Service) (id : String)
      → generate_token lib user_id username ttl token_use secret now n ≡ ok (token, expires_at)
      → validate_access_token lib verifier at token ≡ ok id
      → id ≡ user_id
  unfolding validate_access_token
  validated_user sound user_id username secret token_use ttl now at n token expires_at verifier id
        made accepted =
      let c = token_claims lib user_id username token_use now (add_duration now ttl) n in
      let (keyed, signed) =
        generate_token-signed user_id username ttl token_use secret now n token expires_at made in
      let (valid, d, parsed, shown) =
        checked_claims-user (lib.parse at (key_of verifier.access_key) token) id accepted in
      shown
      ∙ ap (λ (k : Claims). k.user_id)
          (sound.decodes secret token c d at (key_of verifier.access_key) valid signed parsed)
