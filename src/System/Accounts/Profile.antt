-- ===== src/System/Accounts/Profile.antt =====
-- Whose profile a token shows.
use notes_microservices.Prelude.{
  ℕ, ◌≡◌, refl, sym, ap, ◌∙◌, ℤ, String, Bool, true, false, if◌then◌else◌, some, List, [], ◌∷◌,
  find, trim_space, arith, str_eq, inl, inr, Bool-cases,
}
use notes_microservices.Failure.{sentinel, user_not_found, auth_header_not_found}
use notes_microservices.Action.{Action, Result, ok, err}
use notes_microservices.Action.Laws.{within-eq-ok}
use notes_microservices.Domain.{Time, User}
use notes_microservices.Ports.{PasswordService, TokenService, AuthBackend}
use notes_microservices.App.Auth
use notes_microservices.Postgres.Store.{Server, Database, now}
use notes_microservices.Postgres.Users.{has_id, find_by_id, user_repository}
use notes_microservices.Postgres.Users.Found.{find_by_id-id}
use notes_microservices.Jwt.{JwtLibrary, new_issuer, validate_access_token, token_service}
use notes_microservices.Rpc.{Code, Rpc, Reply, reply, failed, answer, UserProfileResponse}
use notes_microservices.Rpc.Access.{Context, with_user_id, unary_auth_interceptor}
use notes_microservices.Rpc.Access.Header.{extract_bearer_token-bearer_of}
use notes_microservices.Rpc.Access.Protected.{answered_is_authenticated}
use notes_microservices.Rpc.Clients.{bearer_of, received, user_from_proto}
use notes_microservices.Rpc.Handlers
use notes_microservices.Rpc.Handlers.{profile_response}
use notes_microservices.Rpc.Errors.{auth_status_from_error}
use notes_microservices.System.Login.{issuer}
use notes_microservices.System.{Wire}
use notes_microservices.System.Accounts.{get_user_profile_method, user_use_case, auth_backend}

-- An answer that the wire brings is that of the service, on the same users.
pub record IsHonest (wire : Wire Database) : Type 1 where
  pub answers :
      {A : Type 0} (m : Rpc Database A) (db : Database) (a : A)
      → (wire.deliver m db).0 ≡ reply a
      → (t : Database) × (t.users ≡ db.users) × ((m t).0 ≡ reply a)

unblank_ok :
    (blank : Bool) (x y : String)
    → (if blank then err (sentinel auth_header_not_found) else ok x) ≡ ok y
    → x ≡ y
unblank_ok true x y h = cc
unblank_ok false x y h = ground arith

received-reply :
    (code_name : Code → String) (r : Reply UserProfileResponse) (u : User)
    → received code_name (sentinel user_not_found) user_from_proto r ≡ ok u
    → (body : UserProfileResponse) × (r ≡ reply body) × (u ≡ user_from_proto body)
received-reply code_name (reply body) u h = (body, refl, ground arith)
received-reply code_name (failed e) u h = cc

-- The profile `u` shows the row of the user `id`.
pub record IsRowOf (users : List User) (id : String) (u : User) : Type 0 where
  pub row : User
  pub found : find (has_id id) users ≡ some row
  pub own : u.id ≡ id
  pub email : u.email ≡ row.email
  pub username : u.username ≡ row.username

module _ (sv : Server) (hash_token : String → String) (passwords : PasswordService Database)
    (signer : TokenService Database) where
  profile-ok :
      (id : String) (db : Database) (row : User)
      → (Auth.get_user_profile (user_repository sv) id db).0 ≡ ok row
      → (find_by_id sv id db).0 ≡ ok row
  unfolding Auth.get_user_profile
  profile-ok id db row h = elim (Bool-cases (str_eq id "")) [
    | inl empty ↦ ground arith
    | inr named ↦ within-eq-ok "get profile" (find_by_id sv id) db (rw named at h)
  ]

  answer-reply :
      (r : Result User) (body : UserProfileResponse)
      → answer auth_status_from_error profile_response r ≡ reply body
      → (row : User) × (r ≡ ok row) × (body ≡ profile_response row)
  answer-reply (ok row) body h = (row, refl, ground arith)
  answer-reply (err e) body h = cc

  handler-ok :
      (ctx : Context) (id : String) (db : Database) (body : UserProfileResponse)
      → (Handlers.get_user_profile
          (user_use_case sv hash_token passwords signer)
          (with_user_id ctx id)
          db).0
        ≡ reply body
      → (row : User) × ((Auth.get_user_profile (user_repository sv) id db).0 ≡ ok row)
        × (body ≡ profile_response row)
  unfolding Handlers.get_user_profile
  handler-ok ctx id db body h = elim (Bool-cases (str_eq id "")) [
    | inl empty ↦ ground arith
    | inr named ↦
        answer-reply (Auth.get_user_profile (user_repository sv) id db).0 body (rw named at h)
  ]

module _ (sv : Server) (hash_token : String → String) (passwords : PasswordService Database)
    (lib : JwtLibrary) (drawn : Database → ℕ) (draw : Database → Database)
    (access_secret refresh_secret : String) (access_ttl refresh_ttl : ℤ)
    (equal_fold : String → String → Bool) (wire : Wire Database) (code_name : Code → String)
    (close : Action Database (Unit {0})) where
  abbrev signer_of : TokenService Database
  signer_of = issuer lib now drawn draw access_secret refresh_secret access_ttl refresh_ttl

  abbrev client : AuthBackend Database
  client = auth_backend sv hash_token passwords signer_of equal_fold wire code_name close

  -- The profile that the gateway's client brings for a token is the row, in the table of users, of a
  -- user whom the token proves to the auth service, over a wire that brings the service's answers, if
  -- EqualFold takes Bearer for itself.
  pub get_user_profile-IsRowOf :
      equal_fold "Bearer" "Bearer" ≡ true
      → IsHonest wire
      → (token : String) (db : Database) (u : User) → (client.get_user_profile token db).0 ≡ ok u
      → (at : Time) × (id : String) × (validate_access_token lib
            (new_issuer access_secret refresh_secret access_ttl refresh_ttl)
            at
            (trim_space token)
          ≡ ok id)
        × IsRowOf db.users id u
  unfolding auth_backend token_service
  get_user_profile-IsRowOf same honest token db u shown =
      let ctx : Context = record { authorization = some (bearer_of token ∷ []); user_id = "" } in
      let handler = Handlers.get_user_profile (user_use_case sv hash_token passwords signer_of) in
      let m =
        unary_auth_interceptor equal_fold signer_of (get_user_profile_method ∷ [])
          get_user_profile_method handler ctx in
      let (body, replied, is_body) = received-reply code_name (wire.deliver m db).0 u shown in
      let (t, users, answered) = honest.answers m db body replied in
      let (token', id, extracted, valid, run) =
        answered_is_authenticated equal_fold signer_of (get_user_profile_method ∷ [])
          get_user_profile_method handler ctx t body refl answered in
      let (row, found, is_row) =
        handler-ok sv hash_token passwords signer_of ctx id t body
          (ap (λ p. p.0) (sym run) ∙ answered) in
      let (listed, row_id) =
        find_by_id-id sv id t row (profile-ok sv hash_token passwords signer_of id t row found) in
      let trimmed =
        unblank_ok (str_eq (trim_space token) "") (trim_space token) token'
          (sym (extract_bearer_token-bearer_of equal_fold same token) ∙ extracted) in
      (
        t.clock,
        id,
        ap
              (validate_access_token lib
                (new_issuer access_secret refresh_secret access_ttl refresh_ttl) t.clock)
              trimmed
            ∙ valid,
        record {
          row = row;
          found = ap (find (has_id id)) (sym users) ∙ listed;
          own = ap (λ v. v.id) is_body ∙ ap (λ b. b.user_id) is_row ∙ row_id;
          email = ap (λ v. v.email) is_body ∙ ap (λ b. b.email) is_row;
          username = ap (λ v. v.username) is_body ∙ ap (λ b. b.username) is_row;
        },
      )
