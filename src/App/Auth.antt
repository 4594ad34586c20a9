-- ===== src/App/Auth.antt =====
-- internal/app/auth.go: the use cases of the auth service. `hash_token` is `hashToken` of
-- internal/app/helpers.go, the hexadecimal SHA-256 of a token, and `now s` is the clock.
pub mod Login
use notes_microservices.Prelude.{
  String, Bool, true, false, not, Option, none, some, str_eq, ltb, if◌then◌else◌,
}
use notes_microservices.Failure.{
  Err, sentinel, wrap, is, user_not_found, email_already_exists, invalid_credentials,
  invalid_refresh_token, revoked_refresh_token, empty_user_id,
}
use notes_microservices.Action.{
  Action, Result, ok, err, pure, fail, lift, within, handle, ◌>>=◌, ◌>>◌,
}
use notes_microservices.Domain.{
  Time, zero_time, User, TokenPair, RefreshToken, validate_email, validate_password, new_user,
}
use notes_microservices.Ports.{UserRepository, TokenRepository, PasswordService, TokenService}

abbrev pub dummy_password_hash : String
dummy_password_hash = "$2a$10$acL5avM/6CNzik0Jui7GuONl52bA9kU1xSbMCcBAnvaOSZ8hspht6"

-- `if err != nil { return nil, fmt.Errorf("register: %w", err) }`
abbrev pub checked : Option Err → Result (Unit {0})
checked (some e) = err e
checked none = ok tt

-- A user that is not found is a nil user without an error.
abbrev pub nil_if_not_found : Result User → Result (Option User)
nil_if_not_found (ok u) = ok (some u)
nil_if_not_found (err e) = if is e user_not_found then ok none else err e

abbrev pub free : Option User → Result (Unit {0})
free (some u) = err (sentinel email_already_exists)
free none = ok tt

abbrev pub hash_of : Option User → String
hash_of (some u) = u.password_hash
hash_of none = dummy_password_hash

-- `if user == nil || !valid`
abbrev pub accepted : Option User → Bool → Result User
accepted none valid = err (sentinel invalid_credentials)
accepted (some u) valid = if not valid then err (sentinel invalid_credentials) else ok u

abbrev pub pair_of : User → (String × Time) → (String × Time) → TokenPair
pair_of u (access_token, access_expires) (refresh_token, refresh_expires) = record {
  expires_at = access_expires;
  user_id = u.id;
  username = u.username;
  access_token = access_token;
  refresh_token = refresh_token;
}

-- The row that a new refresh token is stored as.
abbrev pub token_row : (String → String) → String → (String × Time) → RefreshToken
token_row hash_token user_id (refresh_token, refresh_expires) = record {
  expires_at = refresh_expires;
  created_at = zero_time;
  id = "";
  user_id = user_id;
  token = hash_token refresh_token;
  is_revoked = false;
}

module _ {S : Type 0} (now : S → Time) (hash_token : String → String) (users : UserRepository S)
    (tokens : TokenRepository S) (passwords : PasswordService S) (signer : TokenService S) where
  unfoldable pub generate_token_pair : User → Action S TokenPair
  generate_token_pair user = do
    access ← within "generating access token" (signer.generate_access_token user.id user.username)
    refresh ← within "generating refresh token" (signer.generate_refresh_token user.id)
    within "storing refresh token"
        (tokens.store_refresh_token (token_row hash_token user.id refresh))
    pure (pair_of user access refresh)

  unfoldable pub find_optional : String → Action S (Option User)
  find_optional email s =
      let (found, s') = users.find_by_email email s in (nil_if_not_found found, s')

  unfoldable pub register : String → String → String → Action S TokenPair
  unfolding generate_token_pair find_optional
  register email username password = do
    within "register" (lift (checked (validate_email email)))
    within "register" (lift (checked (validate_password password)))
    existing ← within "register: checking existing user" (find_optional email)
    within "register" (lift (free existing))
    hashed ← within "register: hashing password" (passwords.hash password)
    user ← within "register" (lift (new_user email username hashed))
    created ← within "register: creating user" (users.create user)
    within "register: generating tokens" (generate_token_pair created)

  unfoldable pub login : String → String → Action S TokenPair
  unfolding generate_token_pair find_optional
  login email password = do
    user ← within "login: finding user" (find_optional email)
    valid ← within "login: verifying password" (passwords.verify password (hash_of user))
    known ← within "login" (lift (accepted user valid))
    within "login: generating tokens" (generate_token_pair known)

  -- `rejectRefreshReuse`: it always returns an error.
  unfoldable pub reject_refresh_reuse : String → Action S TokenPair
  reject_refresh_reuse user_id =
      if not (str_eq user_id "")
      then (do
        within "refresh: revoking sessions after reuse" (tokens.revoke_all_user_tokens user_id)
        fail (wrap "refresh" (sentinel revoked_refresh_token)))
      else fail (wrap "refresh" (sentinel revoked_refresh_token))

  -- The rotation of a token whose row was found live, and what its failure means.
  unfoldable pub rotate : String → RefreshToken → Action S TokenPair
  unfolding reject_refresh_reuse
  rotate hash token = do
    user ← within "refresh: finding user" (users.find_by_id token.user_id)
    access ←
        within "refresh: generating access token"
          (signer.generate_access_token user.id user.username)
    refresh ← within "refresh: generating refresh token" (signer.generate_refresh_token user.id)
    λ s.
        let (rotated, s') =
          tokens.rotate_refresh_token hash (some (token_row hash_token user.id refresh)) s in
        handle rotated (λ _. pure (pair_of user access refresh))
          (λ e.
            if is e invalid_refresh_token
            then reject_refresh_reuse token.user_id
            else fail (wrap "refresh: rotating refresh token" e))
          s'

  -- What follows when the row is found.
  unfoldable pub refresh_found : String → RefreshToken → Action S TokenPair
  unfolding reject_refresh_reuse rotate
  refresh_found hash token s =
      (if token.is_revoked
          then reject_refresh_reuse token.user_id
          else if ltb token.expires_at (now s)
          then fail (wrap "refresh" (sentinel invalid_refresh_token))
          else rotate hash token)
        s

  unfoldable pub refresh_tokens : String → Action S TokenPair
  unfolding refresh_found
  refresh_tokens refresh_token s =
      let hash = hash_token refresh_token in
      let (found, s') = tokens.find_by_token hash s in
      handle found (refresh_found hash)
        (λ e.
          if is e invalid_refresh_token
          then fail (wrap "refresh" (sentinel invalid_refresh_token))
          else fail (wrap "refresh: looking up token" e))
        s'

  -- The look-up is for the log; its result and its error are dropped.
  unfoldable pub logout : String → Action S (Unit {0})
  logout refresh_token s =
      let hash = hash_token refresh_token in
      let (found, s') = tokens.find_by_token hash s in
      let (gone, s'') = tokens.revoke_token hash s' in
      handle gone pure
        (λ e.
          if is e invalid_refresh_token then pure tt else fail (wrap "logout: revoking token" e))
        s''

module _ {S : Type 0} (users : UserRepository S) where
  unfoldable pub get_user_profile : String → Action S User
  get_user_profile user_id =
      if str_eq user_id ""
      then fail (wrap "get profile" (sentinel empty_user_id))
      else within "get profile" (users.find_by_id user_id)
