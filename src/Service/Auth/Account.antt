-- ===== src/Service/Auth/Account.antt =====
-- An account that was registered, with the passwords of internal/adapters/bcrypt.
pub mod Known
mod Tests
use mathlib.Core.Path.{subst}
use notes_microservices.Prelude.{
  ◌≡◌, ◌≢◌, refl, sym, ap, ◌∙◌, ℤ, String, Bool, true, false, Option, none, some, List, [], ◌∷◌,
  ◌++◌, find, arith, inl, inr, str_eq_refl, find-append_none,
}
use notes_microservices.Failure.{Err, sentinel, wrap, email_already_exists}
use notes_microservices.Action.{Action, Result, ok, err, within, context_of, lift}
use notes_microservices.Action.Laws.{context_of-eq-ok, within-eq-ok, on_ok-bind}
use notes_microservices.Domain.{
  RefreshToken, User, TokenPair, validate_email, validate_password, new_user,
}
use notes_microservices.Domain.Entities.{validate_email_iff, new_user-fields}
use notes_microservices.Ports.{PasswordService, TokenService}
use notes_microservices.App.Auth
use notes_microservices.App.Auth.{free, checked, token_row, generate_token_pair}
use notes_microservices.Bcrypt.{BcryptLibrary, password_service, new_bcrypt, hash, verify}
use notes_microservices.Bcrypt.Passwords.{IsSound, hash-verifies}
use notes_microservices.Postgres.Keeps.{
  Keeps, Keeps-within, Keeps-statement, Keeps-bind, Keeps-pure,
}
use notes_microservices.Postgres.Store.{
  Server, Database, now, take_turn, unless_fault, statement, scan_one,
}
use notes_microservices.Postgres.Users.{has_email, find_by_email, create, user_repository}
use notes_microservices.Service.Auth.{register, tokens_for, find_optional}
use notes_microservices.Postgres.Users.Added.{IsAdded, create-IsAdded}
use notes_microservices.Postgres.Tokens.{token_repository, store_refresh_token, insert_token}

-- The user that a registration added: the hash is the one that the password service made.
pub record IsRegistered (passwords : PasswordService Database) (email password : String)
    (pair : TokenPair) (after : List User) : Type 0 where
  pub row : User
  pub before : List User
  pub at : Database
  pub id : pair.user_id ≡ row.id
  pub address : row.email ≡ email
  pub valid : validate_email email ≡ none
  pub hashed : (passwords.hash password at).0 ≡ ok row.password_hash
  pub fresh : find (has_email email) before ≡ none
  pub rows : after ≡ before ++ row ∷ []

module _ (sv : Server) (hash_token : String → String) (passwords : PasswordService Database)
    (signer : TokenService Database)
    (access_kept : (id name : String)
      → Keeps (λ db. db.users) (signer.generate_access_token id name))
    (refresh_kept : (id : String) → Keeps (λ db. db.users) (signer.generate_refresh_token id)) where
  store-Keeps : (t : RefreshToken) → Keeps (λ db. db.users) (store_refresh_token sv t)
  unfolding store_refresh_token insert_token
  store-Keeps t =
      Keeps-within _ _
        (Keeps-statement (insert_token sv t) (record { at = λ db c ts. refl }) (λ db. ground arith))

  tokens_for-Keeps :
      (user : User) → Keeps (λ db. db.users) (tokens_for sv hash_token passwords signer user)
  unfolding generate_token_pair
  tokens_for-Keeps user =
      Keeps-bind _ _ (Keeps-within _ _ (access_kept user.id user.username)) (λ access.
        Keeps-bind _ _ (Keeps-within _ _ (refresh_kept user.id))
          (λ refresh. Keeps-bind _ _ (Keeps-within _ _ (store-Keeps _)) (λ u. Keeps-pure _)))

  tokens_for-user :
      (user : User) (pair : TokenPair) (s : Database)
      → (tokens_for sv hash_token passwords signer user s).0 ≡ ok pair
      → pair.user_id ≡ user.id
  unfolding generate_token_pair
  tokens_for-user user pair s made =
      let P = λ (p : TokenPair) (d : Database). p.user_id ≡ user.id in
      on_ok-bind
        (within "generating access token" (signer.generate_access_token user.id user.username)) _ s
        P
        (λ access _.
          on_ok-bind (within "generating refresh token" (signer.generate_refresh_token user.id)) _ _
            P
            (λ refresh _.
              on_ok-bind
                (within "storing refresh token"
                  (store_refresh_token sv (token_row hash_token user.id refresh)))
                _ _ P (λ u stored q made. ground arith)))
        pair made

  -- The end of a registration.
  added-IsRegistered :
      (email username password hashed : String) (user created : User) (pair : TokenPair)
      (at s : Database)
      → (passwords.hash password at).0 ≡ ok hashed
      → new_user email username hashed ≡ ok user
      → (create sv user s).0 ≡ ok created
      → (within "register: generating tokens"
          (tokens_for sv hash_token passwords signer created)
          (create sv user s).1).0
        ≡ ok pair
      → IsRegistered passwords email password pair
          (within "register: generating tokens"
            (tokens_for sv hash_token passwords signer created)
            (create sv user s).1).1.users
  added-IsRegistered email username password hashed user created pair at s made built inserted
        issued =
      let after = (create sv user s).1 in
      let added = create-IsAdded sv user created s inserted in
      let (valid, named, short, address, name, hash, id) =
        new_user-fields email username hashed user built in
      let issued' =
        within-eq-ok "register: generating tokens"
          (tokens_for sv hash_token passwords signer created) after issued in
      record {
        row = created;
        before = added.before;
        at = at;
        id = tokens_for-user created pair after issued';
        address = added.email ∙ address;
        valid =
            subst (λ e. validate_email e ≡ none) address ((validate_email_iff user.email).1 valid);
        hashed = made ∙ ap (λ h. ok h) (sym (added.password_hash ∙ hash));
        fresh = subst (λ e. find (has_email e) added.before ≡ none) address added.fresh;
        rows = (tokens_for-Keeps created).at after ∙ added.rows;
      }

  pub register-IsRegistered :
      (email username password : String) (pair : TokenPair) (db : Database)
      → (register sv hash_token passwords signer email username password db).0 ≡ ok pair
      → IsRegistered passwords email password pair
          (register sv hash_token passwords signer email username password db).1.users
  unfolding Auth.register
  register-IsRegistered email username password pair db made =
      let P =
        λ (p : TokenPair) (after : Database). IsRegistered passwords email password p after.users in
      on_ok-bind (within "register" (lift (checked (validate_email email)))) _ db P
        (λ _ _.
          on_ok-bind (within "register" (lift (checked (validate_password password)))) _ _ P (λ _ _.
            on_ok-bind
              (within "register: checking existing user"
                (find_optional sv hash_token passwords signer email))
              _ _ P
              (λ existing _. on_ok-bind (within "register" (lift (free existing))) _ _ P (λ _ _.
                on_ok-bind (within "register: hashing password" (passwords.hash password)) _ _ P
                  (λ hashed made_hash.
                    on_ok-bind (within "register" (lift (new_user email username hashed))) _ _ P
                      (λ user built.
                        on_ok-bind (within "register: creating user" (create sv user)) _ _ P
                          (λ created inserted p issued.
                            added-IsRegistered email username password hashed user created p _ _
                              (within-eq-ok _ (passwords.hash password) _ made_hash)
                              (context_of-eq-ok _ (new_user email username hashed) built)
                              (within-eq-ok _ (create sv user) _ inserted) issued)))))))
        pair made
