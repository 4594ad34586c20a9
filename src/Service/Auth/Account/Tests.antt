-- ===== src/Service/Auth/Account/Tests.antt =====
-- Ann registers in the fixture and logs in; hashes are the passwords themselves.
use notes_microservices.Prelude.{
  ◌≡◌, refl, pos, none, some, [], str_eq, str_eq_refl, arith, eq_iff, if◌then◌else◌, Bool-cases,
  inl, inr, trim_space,
}
use notes_microservices.Failure.{
  foreign, sentinel, wrap, mismatched_hash, other, email_already_exists,
}
use notes_microservices.Action.{ok, err, within}
use notes_microservices.Domain.{User, TokenPair, validate_email, validate_password, new_user}
use notes_microservices.Ports.{TokenService}
use notes_microservices.App.Auth
use notes_microservices.Bcrypt.{BcryptLibrary, password_service}
use notes_microservices.Bcrypt.Passwords.{IsSound}
use notes_microservices.Postgres.Store.{Database, statement, scan_one, take_turn}
use notes_microservices.Domain.Pattern.{
  matches_email, is_local, matches_local_rest, matches_host, matches_host_rest, has_letter,
  has_digit,
}
use notes_microservices.Postgres.Users.{find_by_email, find_user, create}
use notes_microservices.Postgres.Tokens.{store_refresh_token}
use notes_microservices.Postgres.Fixture.{server, database}
use notes_microservices.Service.Auth.{register, login, tokens_for}
use notes_microservices.Service.Auth.Account.Known.{registered_logs_in}

abbrev plain : BcryptLibrary Database
plain = record {
  min_cost = 4;
  max_cost = 31;
  default_cost = 10;
  generate_from_password = λ password cost s.
      (if str_eq password "" then err (foreign other "empty") else ok password, s);
  compare_hash_and_password = λ hashed password.
      if str_eq hashed password then none else some (foreign mismatched_hash "mismatch");
}

plain-IsSound : IsSound plain
plain-IsSound = record {
  matches = λ password hashed cost s s' made.
      let same = str_eq_refl hashed in
      elim (Bool-cases (str_eq password "")) [
        | inl empty ↦ ground arith
        | inr given ↦ ground arith
      ];
  filled = λ password hashed cost s s' made. ground (arith, eq_iff password "");
}

abbrev signer : TokenService Database
signer = record {
  generate_access_token = λ id username s. (ok ("access", 20), s);
  generate_refresh_token = λ id s. (ok ("refresh", 300), s);
  validate_access_token = λ token s. (ok "u1", s);
}

abbrev pair : TokenPair
pair = record {
  expires_at = 20;
  user_id = "id0";
  username = "ann";
  access_token = "access";
  refresh_token = "refresh";
}

abbrev later : Database
later =
    (register server (λ t. t) (password_service plain (λ s. none) (pos 10)) signer "ann@mail.com"
      "ann" "secret12" database).1

ann_registers :
    ((register server
        (λ t. t)
        (password_service plain (λ s. none) (pos 10))
        signer
        "ann@mail.com"
        "ann"
        "secret12"
        database).0
      ≡ ok pair)
    × (later.turns ≡ [])
unfolding Auth.register validate_email matches_email is_local matches_local_rest matches_host
    matches_host_rest validate_password has_letter has_digit new_user trim_space find_by_email
    find_user create scan_one statement take_turn store_refresh_token password_service
ann_registers = (refl, refl)

other_valid : validate_password "another7" ≡ none
unfolding validate_password has_letter has_digit
other_valid = refl

registered_logs_in_example :
    ((user : User) × (user.id ≡ "id0")
      × (login server
            (λ t. t)
            (password_service plain (λ s. none) (pos 10))
            signer
            "ann@mail.com"
            "secret12"
            later
          ≡ within "login: generating tokens"
              (tokens_for server (λ t. t) (password_service plain (λ s. none) (pos 10)) signer user)
              later))
    × (register server
          (λ t. t)
          (password_service plain (λ s. none) (pos 10))
          signer
          "ann@mail.com"
          "bea"
          "another7"
          later
        ≡ (err (wrap "register" (sentinel email_already_exists)), later))
registered_logs_in_example =
    registered_logs_in server (λ t. t) plain (λ s. none) (pos 10) signer
      (λ id name. record { at = λ db. refl }) (λ id. record { at = λ db. refl }) plain-IsSound
      "ann@mail.com" "ann" "secret12" "bea" "another7" pair database later ann_registers.0 refl
      ann_registers.1 refl other_valid
