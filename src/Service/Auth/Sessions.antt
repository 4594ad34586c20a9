-- ===== src/Service/Auth/Sessions.antt =====
-- Runs of refreshes, logouts and look-ups, and the live refresh tokens of a user.
mod Tests
use notes_microservices.Prelude.{
  ℕ, ◌≤◌, count, String, Bool, true, false, Option, none, some, List, [], ◌∷◌, not, str_eq, inl,
  inr, Bool-cases, if◌then◌else◌, ltb,
}
use notes_microservices.Failure.{
  Err, is, wrap, sentinel, invalid_refresh_token, revoked_refresh_token,
}
use notes_microservices.Action.{Action, Result, within, handle, pure, fail, lift, ◌>>=◌}
use notes_microservices.Domain.{
  User, TokenPair, RefreshToken, validate_email, validate_password, new_user,
}
use notes_microservices.Ports.{PasswordService, TokenService}
use notes_microservices.App.Auth
use notes_microservices.App.Auth.{checked, free, accepted, hash_of, token_row, pair_of}
use notes_microservices.Postgres.Stays.{
  Stays, Stays-pure, Stays-fail, Stays-lift, Stays-within, Stays-bind, Stays-step, Stays-handle,
}
use notes_microservices.Postgres.Store.{Server, Database, now}
use notes_microservices.Postgres.Users.{create, find_by_id, user_repository}
use notes_microservices.Postgres.Tokens
use notes_microservices.Postgres.Tokens.{token_repository}
use notes_microservices.Postgres.Live.{
  AtMost, is_live, find_by_id-Stays, find_by_token-Stays, revoke_token-Stays, revoke_all-Stays,
  cleanup-Stays, rotate-Stays as rotation-Stays,
}
use notes_microservices.Service.Auth.{refresh_tokens, logout}

-- Making a token leaves the live tokens of a user alone.
pub record LeaveTokens (signer : TokenService Database) (user : String) (n : ℕ) : Type 0 where
  pub access : (id name : String) → Stays (AtMost user n) (signer.generate_access_token id name)
  pub refresh : (id : String) → Stays (AtMost user n) (signer.generate_refresh_token id)

module _ (sv : Server) (hash_token : String → String) (passwords : PasswordService Database)
    (signer : TokenService Database) (user : String) (n : ℕ)
    (leave : LeaveTokens signer user n) where
  abbrev reuse : String → Action Database TokenPair
  reuse =
      Auth.reject_refresh_reuse now hash_token (user_repository sv) (token_repository sv) passwords
        signer

  reuse-Stays : (user_id : String) → Stays (AtMost user n) (reuse user_id)
  unfolding Auth.reject_refresh_reuse
  reuse-Stays user_id = elim (Bool-cases (not (str_eq user_id ""))) [
    | inl named ↦
        (let revoke : Stays (AtMost user n) (
              within "refresh: revoking sessions after reuse"
                (Tokens.revoke_all_user_tokens sv user_id)
              >>= λ _. fail {A = TokenPair} (wrap "refresh" (sentinel revoked_refresh_token))) =
            Stays-step "refresh: revoking sessions after reuse"
              (Tokens.revoke_all_user_tokens sv user_id) _ (revoke_all-Stays sv user n user_id)
              (λ _. Stays-fail _) in
          record { at = λ db c. rw named (revoke.at db c) })
    | inr nobody ↦ record { at = λ db c. rw nobody c }
  ]

  abbrev after_refusal : String → Err → Action Database TokenPair
  after_refusal user_id e =
      if is e invalid_refresh_token
      then reuse user_id
      else fail (wrap "refresh: rotating refresh token" e)

  after_refusal-Stays :
      (user_id : String) (e : Err) → Stays (AtMost user n) (after_refusal user_id e)
  after_refusal-Stays user_id e = record {
    at = λ db c. elim (Bool-cases (is e invalid_refresh_token)) [
      | inl refused ↦ (rw refused ((reuse-Stays user_id).at db c))
      | inr failed ↦ (rw failed c)
    ];
  }

  rotate-Stays :
      (hash : String) (token : RefreshToken)
      → Stays (AtMost user n) (
          Auth.rotate now hash_token
            (user_repository sv)
            (token_repository sv)
            passwords
            signer
            hash
            token)
  unfolding Auth.rotate
  rotate-Stays hash token =
      Stays-step "refresh: finding user" (find_by_id sv token.user_id) _
        (find_by_id-Stays sv user n token.user_id)
        (λ u.
          Stays-step "refresh: generating access token"
            (signer.generate_access_token u.id u.username) _ (leave.access u.id u.username)
            (λ access.
              Stays-step "refresh: generating refresh token" (signer.generate_refresh_token u.id) _
                (leave.refresh u.id)
                (λ refresh.
                  Stays-handle
                    (Tokens.rotate_refresh_token sv hash (some (token_row hash_token u.id refresh)))
                    (λ _. pure (pair_of u access refresh)) (after_refusal token.user_id)
                    (rotation-Stays sv user n hash _) (λ _. Stays-pure _)
                    (after_refusal-Stays token.user_id))))

  found-Stays :
      (hash : String) (token : RefreshToken)
      → Stays (AtMost user n) (
          Auth.refresh_found now hash_token
            (user_repository sv)
            (token_repository sv)
            passwords
            signer
            hash
            token)
  unfolding Auth.refresh_found
  found-Stays hash token = record {
    at = λ db c. elim (Bool-cases token.is_revoked) [
      | inl spent ↦ (rw spent ((reuse-Stays token.user_id).at db c))
      | inr live ↦ elim (Bool-cases (ltb token.expires_at db.clock)) [
        | inl late ↦ (rw (live, late) c)
        | inr fresh ↦ (rw (live, fresh) ((rotate-Stays hash token).at db c))
      ]
    ];
  }

  pub refresh-Stays :
      (refresh_token : String)
      → Stays (AtMost user n) (refresh_tokens sv hash_token passwords signer refresh_token)
  unfolding Auth.refresh_tokens
  refresh-Stays refresh_token =
      let hash = hash_token refresh_token in
      Stays-handle (Tokens.find_by_token sv hash)
        (Auth.refresh_found now hash_token (user_repository sv) (token_repository sv) passwords
          signer hash)
        _ (find_by_token-Stays sv user n hash) (found-Stays hash)
        (λ e. record {
          at = λ db c. elim (Bool-cases (is e invalid_refresh_token)) [
            | inl unknown ↦ (rw unknown c)
            | inr failed ↦ (rw failed c)
          ];
        })

  abbrev after_logout : Err → Action Database (Unit {0})
  after_logout e =
      if is e invalid_refresh_token then pure tt else fail (wrap "logout: revoking token" e)

  after_logout-Stays : (e : Err) → Stays (AtMost user n) (after_logout e)
  after_logout-Stays e = record {
    at = λ db c. elim (Bool-cases (is e invalid_refresh_token)) [
      | inl unknown ↦ (rw unknown c)
      | inr failed ↦ (rw failed c)
    ];
  }

  pub logout-Stays :
      (refresh_token : String)
      → Stays (AtMost user n) (logout sv hash_token passwords signer refresh_token)
  unfolding Auth.logout
  logout-Stays refresh_token =
      let hash = hash_token refresh_token in
      record {
        at = λ db c.
            let looked = (find_by_token-Stays sv user n hash).at db c in
            let db' = (Tokens.find_by_token sv hash db).1 in
            (Stays-handle (Tokens.revoke_token sv hash) pure (after_logout)
                (revoke_token-Stays sv user n hash) (λ _. Stays-pure _) after_logout-Stays).at
              db' looked;
      }

  pub profile-Stays :
      (user_id : String)
      → Stays (AtMost user n) (Auth.get_user_profile (user_repository sv) user_id)
  unfolding Auth.get_user_profile
  profile-Stays user_id = record {
    at = λ db c. elim (Bool-cases (str_eq user_id "")) [
      | inl empty ↦ (rw empty c)
      | inr named ↦ (rw named ((find_by_id-Stays sv user n user_id).at db c))
    ];
  }

-- What is asked of the auth service by the holder of a token, and the cleanup that runs beside it.
pub data Request : Type 0 where
  refresh_of : String → Request
  logout_of : String → Request
  profile_of : String → Request
  cleanup : Request

module _ (sv : Server) (hash_token : String → String) (passwords : PasswordService Database)
    (signer : TokenService Database) where
  -- The database after a request.
  unfoldable pub ask : Request → Database → Database
  ask (refresh_of refresh_token) db =
      (refresh_tokens sv hash_token passwords signer refresh_token db).1
  ask (logout_of refresh_token) db = (logout sv hash_token passwords signer refresh_token db).1
  ask (profile_of user_id) db = (Auth.get_user_profile (user_repository sv) user_id db).1
  ask cleanup db = (Tokens.cleanup_expired_tokens sv db).1

  unfoldable pub ask_all : List Request → Database → Database
  unfolding ask
  ask_all [] db = db
  ask_all (q ∷ qs) db = ask_all qs (ask q db)

module _ (sv : Server) (hash_token : String → String) (passwords : PasswordService Database)
    (signer : TokenService Database) (user : String) (n : ℕ)
    (leave : LeaveTokens signer user n) where
  ask-AtMost :
      (q : Request) (db : Database)
      → AtMost user n db.users db.tokens
      → AtMost user n
          (ask sv hash_token passwords signer q db).users
          (ask sv hash_token passwords signer q db).tokens
  unfolding ask
  ask-AtMost (refresh_of refresh_token) db h =
      (refresh-Stays sv hash_token passwords signer user n leave refresh_token).at db h
  ask-AtMost (logout_of refresh_token) db h =
      (logout-Stays sv hash_token passwords signer user n leave refresh_token).at db h
  ask-AtMost (profile_of user_id) db h =
      (profile-Stays sv hash_token passwords signer user n leave user_id).at db h
  ask-AtMost cleanup db h = (cleanup-Stays sv user n).at db h

  -- Whoever holds refresh tokens cannot make more of them: in any run of refreshes, logouts and
  -- look-ups of profiles, by anyone, and of cleanups, with whatever faults and delays, a user who has
  -- `n` tokens that are not revoked, or fewer, never has more than `n`, if making tokens leaves it so.
  pub sessions_never_multiply :
      (qs : List Request) (db : Database)
      → count (is_live user) db.tokens ≤ n
      → count (is_live user) (ask_all sv hash_token passwords signer qs db).tokens ≤ n
  unfolding ask_all
  sessions_never_multiply [] db h = h
  sessions_never_multiply (q ∷ qs) db h =
      sessions_never_multiply qs (ask sv hash_token passwords signer q db) (ask-AtMost q db h)
