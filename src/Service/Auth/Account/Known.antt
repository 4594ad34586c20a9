-- ===== src/Service/Auth/Account/Known.antt =====
-- An account that was registered: logging in to it, and registering its address again.
use mathlib.Core.Path.{subst}
use notes_microservices.Prelude.{
  ◌≡◌, sym, ap, ◌∙◌, ℤ, String, true, Option, none, some, List, [], find, arith, str_eq_refl,
  find-append_none,
}
use notes_microservices.Failure.{Err, sentinel, wrap, email_already_exists}
use notes_microservices.Action.{ok, err, within, lift}
use notes_microservices.Action.Laws.{bind-ok}
use notes_microservices.Domain.{User, TokenPair, validate_email, validate_password}
use notes_microservices.Ports.{PasswordService, TokenService}
use notes_microservices.App.Auth
use notes_microservices.App.Auth.{checked}
use notes_microservices.Bcrypt.{BcryptLibrary, password_service, new_bcrypt}
use notes_microservices.Bcrypt.Passwords.{IsSound, hash-verifies}
use notes_microservices.Postgres.Keeps.{Keeps}
use notes_microservices.Postgres.Store.{Server, Database, take_turn, statement, scan_one}
use notes_microservices.Postgres.Users.{has_email, find_by_email, find_user}
use notes_microservices.Service.Auth.{register, login, tokens_for, find_optional}
use notes_microservices.Service.Auth.Account.{IsRegistered, register-IsRegistered}

-- A database that answers, with the users that a registration left.
module _ (sv : Server) (hash_token : String → String) (lib : BcryptLibrary Database)
    (cancelled : Database → Option Err) (cost : ℤ) (signer : TokenService Database)
    (access_kept : (id name : String)
      → Keeps (λ db. db.users) (signer.generate_access_token id name))
    (refresh_kept : (id : String) → Keeps (λ db. db.users) (signer.generate_refresh_token id)) where
  abbrev passwords : PasswordService Database
  passwords = password_service lib cancelled cost

  account-found :
      (email password : String) (pair : TokenPair) (later : Database) (users : List User)
      (account : IsRegistered passwords email password pair users)
      → later.users ≡ users
      → find (has_email email) later.users ≡ some account.row
  account-found email password pair later users account same =
      let row = account.row in
      let reflexive = str_eq_refl row.email in
      let listed : has_email email row ≡ true =
        subst (λ e. has_email e row ≡ true) account.address reflexive in
      ap (find (has_email email)) (same ∙ account.rows)
      ∙ find-append_none (has_email email) account.before row account.fresh listed

  find_optional-found :
      (email : String) (row : User) (later : Database)
      → later.turns ≡ []
      → find (has_email email) later.users ≡ some row
      → find_optional sv hash_token passwords signer email later ≡ (ok (some row), later)
  unfolding Auth.find_optional find_by_email find_user scan_one statement take_turn
  find_optional-found email row later quiet found = ground arith

  login-known :
      (email password : String) (row : User) (later : Database)
      → later.turns ≡ []
      → find (has_email email) later.users ≡ some row
      → passwords.verify password row.password_hash later ≡ (ok true, later)
      → login sv hash_token passwords signer email password later
        ≡ within "login: generating tokens" (tokens_for sv hash_token passwords signer row) later
  unfolding Auth.login
  login-known email password row later quiet found verified =
      bind-ok "login: finding user" (find_optional sv hash_token passwords signer email) _ later
        later (some row) (find_optional-found email row later quiet found)
      ∙ bind-ok "login: verifying password" (passwords.verify password row.password_hash) _ later
          later true verified

  register-taken :
      (email name password : String) (row : User) (later : Database)
      → later.turns ≡ []
      → find (has_email email) later.users ≡ some row
      → validate_email email ≡ none
      → validate_password password ≡ none
      → register sv hash_token passwords signer email name password later
        ≡ (err (wrap "register" (sentinel email_already_exists)), later)
  unfolding Auth.register
  register-taken email name password row later quiet found valid fine =
      bind-ok "register" (lift (checked (validate_email email))) _ later later tt
        (ap (λ o. (checked o, later)) valid)
      ∙ bind-ok "register" (lift (checked (validate_password password))) _ later later tt
          (ap (λ o. (checked o, later)) fine)
      ∙ bind-ok "register: checking existing user"
          (find_optional sv hash_token passwords signer email) _ later later (some row)
          (find_optional-found email row later quiet found)

  -- After a registration, whenever the database answers and has the users that it left, a login with
  -- the same address and password goes on to make tokens for the user of the registration, and
  -- another registration of the address, under any name and any valid password, is refused and
  -- leaves the database alone, if hashes match their passwords and making tokens leaves the users
  -- alone.
  pub registered_logs_in :
      IsSound lib
      → (email username password name other : String) (pair : TokenPair) (db later : Database)
      → (register sv hash_token passwords signer email username password db).0 ≡ ok pair
      → later.users ≡ (register sv hash_token passwords signer email username password db).1.users
      → later.turns ≡ []
      → cancelled later ≡ none
      → validate_password other ≡ none
      → ((user : User) × (user.id ≡ pair.user_id)
          × (login sv hash_token passwords signer email password later
              ≡ within "login: generating tokens"
                  (tokens_for sv hash_token passwords signer user)
                  later))
        × (register sv hash_token passwords signer email name other later
            ≡ (err (wrap "register" (sentinel email_already_exists)), later))
  unfolding password_service
  registered_logs_in sound email username password name other pair db later made same quiet alive
        fine =
      let account =
        register-IsRegistered sv hash_token passwords signer access_kept refresh_kept email username
          password pair db made in
      let found = account-found email password pair later _ account same in
      let made_hash = ap (λ r. (r, (passwords.hash password account.at).1)) account.hashed in
      let verified =
        hash-verifies lib sound cancelled (new_bcrypt lib cost) password account.row.password_hash
          account.at (passwords.hash password account.at).1 later made_hash alive in
      (
        (
          account.row,
          sym account.id,
          login-known email password account.row later quiet found verified,
        ),
        register-taken email name other account.row later quiet found account.valid fine,
      )
