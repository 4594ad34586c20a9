-- ===== src/System/Login.antt =====
-- The tokens of a login, with the issuer of the auth service and the verifiers of both services.
mod Tests
use notes_microservices.Prelude.{
  ℕ, ◌<◌, ◌≤◌, ◌≡◌, ◌≢◌, refl, sym, ap, ◌∙◌, ℤ, String, Bool, true, false, Option, none, some,
  arith, str_eq, inl, inr,
}
use notes_microservices.Failure.{sentinel, expired_jwt_token}
use notes_microservices.Action.{Action, Result, ok, err, within, context_of, ◌>>=◌, continue}
use notes_microservices.Action.Laws.{Result-cases}
use notes_microservices.Domain.{Time, User, TokenPair}
use notes_microservices.Ports.{UserRepository, TokenRepository, PasswordService, TokenService}
use notes_microservices.App.Auth.{
  login, generate_token_pair, pair_of, token_row, find_optional, hash_of, accepted,
}
use notes_microservices.Jwt.{
  JwtLibrary, new_issuer, new_access_verifier, generate_token, validate_access_token, token_service,
  Service, token_claims, add_duration, token_use_access, token_use_refresh,
}
use notes_microservices.Jwt.Tokens.{IsSound, access_token_lifetime, refresh_token_refused}

module _ {S : Type 0} (now : S → Time) (hash_token : String → String) (users : UserRepository S)
    (tokens : TokenRepository S) (passwords : PasswordService S) (signer : TokenService S) where
  -- The calls of the signer that a pair of tokens comes from.
  pub record IsSigned (pair : TokenPair) : Type 0 where
    pub user : User
    pub access : String × Time
    pub refresh : String × Time
    pub at : S
    pub at' : S
    pub access_made : (signer.generate_access_token user.id user.username at).0 ≡ ok access
    pub refresh_made : (signer.generate_refresh_token user.id at').0 ≡ ok refresh
    pub is_pair : pair ≡ pair_of user access refresh

  generate_token_pair-IsSigned :
      (user : User) (pair : TokenPair) (s : S)
      → (generate_token_pair now hash_token users tokens passwords signer user s).0 ≡ ok pair
      → IsSigned pair
  unfolding generate_token_pair
  generate_token_pair-IsSigned user pair s made =
      let (a, s1) = signer.generate_access_token user.id user.username s in
      let (r, s2) = signer.generate_refresh_token user.id s1 in
      elim (Result-cases a) [
        | inr (e, failed) ↦ ground arith
        | inl (access, a_ok) ↦ elim (Result-cases r) [
          | inr (e, failed) ↦ ground arith
          | inl (refresh, r_ok) ↦
              (let (st, s3) =
                  tokens.store_refresh_token (token_row hash_token user.id refresh) s2 in
                elim (Result-cases st) [
                  | inr (e, failed) ↦ ground arith
                  | inl (u, st_ok) ↦ record {
                    user = user;
                    access = access;
                    refresh = refresh;
                    at = s;
                    at' = s1;
                    access_made = a_ok;
                    refresh_made = r_ok;
                    is_pair = ground arith;
                  }
                ])
        ]
      ]

  pub login-IsSigned :
      (email password : String) (pair : TokenPair) (s : S)
      → (login now hash_token users tokens passwords signer email password s).0 ≡ ok pair
      → IsSigned pair
  unfolding login
  login-IsSigned email password pair s made =
      let (found, s1) = find_optional now hash_token users tokens passwords signer email s in
      elim (Result-cases found) [
        | inr (e, failed) ↦ ground arith
        | inl (user, found_ok) ↦
            (let (checked, s2) = passwords.verify password (hash_of user) s1 in
              elim (Result-cases checked) [
                | inr (e, failed) ↦ ground arith
                | inl (valid, checked_ok) ↦ elim (Result-cases (accepted user valid)) [
                  | inr (e, failed) ↦ ground arith
                  | inl (known, known_ok) ↦
                      generate_token_pair-IsSigned known pair s2 (ground arith)
                ]
              ])
      ]

generate_token-expires :
    (lib : JwtLibrary) (user_id username : String) (ttl : ℤ) (token_use key : String) (now : Time)
    (n : ℕ) (token : String) (expires_at : Time)
    → generate_token lib user_id username ttl token_use key now n ≡ ok (token, expires_at)
    → expires_at ≡ add_duration now ttl
unfolding generate_token
generate_token-expires lib user_id username ttl token_use key now n token expires_at made =
    let signed =
      lib.signed_string key
        (token_claims lib user_id username token_use now (add_duration now ttl) n) in
    elim (Result-cases signed) [ inr (e, failed) ↦ ground arith | inl (t, made') ↦ ground arith ]

module _ {S : Type 0} (lib : JwtLibrary) (now : S → Time) (drawn : S → ℕ) (draw : S → S)
    (access_secret refresh_secret : String) (access_ttl refresh_ttl : ℤ) where
  abbrev pub issuer : TokenService S
  issuer =
      token_service lib now drawn draw
        (new_issuer access_secret refresh_secret access_ttl refresh_ttl)

  -- After a login with the issuer of the auth service, a verifier with the secret of the access
  -- tokens reads the user of the pair from its access token, if that user has an id, until the date
  -- that the library makes of the time the pair gives (which cuts it to seconds), and refuses it as
  -- expired from that date on; no verifier takes the refresh token, whatever its secret and the time.
  pub login-validate_access_token :
      IsSound lib
      → (hash_token : String → String) (users : UserRepository S) (tokens : TokenRepository S)
        (passwords : PasswordService S) (email password : String) (pair : TokenPair) (s : S)
        (early late at : Time) (verifier : Service) (id : String)
      → (login now hash_token users tokens passwords issuer email password s).0 ≡ ok pair
      → pair.user_id ≢ ""
      → early < lib.numeric_date pair.expires_at
      → lib.numeric_date pair.expires_at ≤ late
      → (validate_access_token lib (new_access_verifier access_secret) early pair.access_token
          ≡ ok pair.user_id)
        × (validate_access_token lib (new_access_verifier access_secret) late pair.access_token
            ≡ err (sentinel expired_jwt_token))
        × (validate_access_token lib verifier at pair.refresh_token ≢ ok id)
  unfolding token_service
  login-validate_access_token sound hash_token users tokens passwords email password pair s early
        late at verifier id given named fresh stale =
      let signed =
        login-IsSigned now hash_token users tokens passwords issuer email password pair s given in
      let user = signed.user in
      let (access, access_at) = signed.access in
      let (refresh, refresh_at) = signed.refresh in
      let same = signed.is_pair in
      let until =
        generate_token-expires lib user.id user.username access_ttl token_use_access access_secret
          (now signed.at) (drawn signed.at) access access_at signed.access_made in
      let user_same = ap (λ (p : TokenPair). p.user_id) same in
      let access_same = ap (λ (p : TokenPair). p.access_token) same in
      let refresh_same = ap (λ (p : TokenPair). p.refresh_token) same in
      let expires_same = ap (λ (p : TokenPair). p.expires_at) same ∙ until in
      let end = lib.numeric_date (add_duration (now signed.at) access_ttl) in
      let ends_same : lib.numeric_date pair.expires_at ≡ end = ap lib.numeric_date expires_same in
      let soon : early < end = grind arith in
      let over : end ≤ late = grind arith in
      let (proves, ends) =
        access_token_lifetime lib sound user.id user.username access_secret access_ttl
          (now signed.at) early late (drawn signed.at) access access_at signed.access_made
          (λ empty. named (user_same ∙ empty)) soon over in
      let refused =
        refresh_token_refused lib sound user.id "" refresh_secret refresh_ttl (now signed.at') at
          (drawn signed.at') refresh refresh_at verifier id signed.refresh_made in
      (
        ap (validate_access_token lib (new_access_verifier access_secret) early) access_same
            ∙ proves
            ∙ ap (λ (u : String). ok u) (sym user_same),
        ap (validate_access_token lib (new_access_verifier access_secret) late) access_same ∙ ends,
        λ taken. refused (ap (validate_access_token lib verifier at) (sym refresh_same) ∙ taken),
      )
