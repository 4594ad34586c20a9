-- ===== src/App/Tests.antt =====
-- The use cases and the gateway on a state that counts its calls.
use notes_microservices.Prelude.{
  String, str_eq, if◌then◌else◌, ℕ, ◌+◌, ◌≡◌, refl, Option, none, false,
}
use notes_microservices.Failure.{Err, sentinel, wrap, user_not_found, invalid_credentials}
use notes_microservices.Action.{Action, Result, ok, err}
use notes_microservices.Domain.{User, TokenPair}
use notes_microservices.Ports.{
  UserRepository, TokenRepository, PasswordService, TokenService, AuthBackend, Cache,
}
use notes_microservices.Fault.Resilience.{ServiceResilience, new_service_resilience}
use notes_microservices.App.Auth.{login}
use notes_microservices.App.Auth.Login.{rejected_alike}
use notes_microservices.App.Gateway.{auth_resilience}

abbrev absent : {A : Type 0} → Action ℕ A
absent s = (err (sentinel user_not_found), s + 1)

abbrev ann : User
ann = record {
  created_at = 0;
  updated_at = 0;
  id = "u1";
  email = "a@b.cd";
  username = "ann";
  password_hash = "h";
}

abbrev users : UserRepository ℕ
users = record {
  create = λ u. absent;
  find_by_id = λ id. absent;
  find_by_email = λ email s. if str_eq email "a@b.cd" then (ok ann, s + 1) else absent s;
  update = λ u. absent;
  delete = λ id. absent;
}

abbrev tokens : TokenRepository ℕ
tokens = record {
  store_refresh_token = λ t. absent;
  find_by_token = λ t. absent;
  revoke_token = λ t. absent;
  consume_active_token = λ t. absent;
  rotate_refresh_token = λ t n. absent;
  revoke_all_user_tokens = λ t. absent;
  cleanup_expired_tokens = absent;
  find_user_tokens = λ t. absent;
}

abbrev passwords : PasswordService ℕ
passwords = record { hash = λ p s. (ok p, s); verify = λ p h s. (ok false, s + 1) }

abbrev signer : TokenService ℕ
signer = record {
  generate_access_token = λ id username s. (ok ("access", 20), s);
  generate_refresh_token = λ id s. (ok ("refresh", 300), s);
  validate_access_token = λ token s. (ok "u1", s);
}

abbrev rejection : Err
rejection = wrap "login" (sentinel invalid_credentials)

abbrev try_login : String → Result TokenPair × ℕ
try_login email = login (λ s. s) (λ t. t) users tokens passwords signer email "secret" 0

rejected_alike_example :
    (try_login "x@y.zw" ≡ (err rejection, 2)) × (try_login "a@b.cd" ≡ (err rejection, 2))
rejected_alike_example =
    rejected_alike (λ t. t) (λ s. s) users tokens passwords signer "x@y.zw" "a@b.cd" "secret" 0 1 2
      0 1 2 (sentinel user_not_found) ann false refl refl refl refl refl

abbrev backend : AuthBackend ℕ
backend = record {
  register = λ e u p. absent;
  login = λ e p. absent;
  refresh_tokens = λ t. absent;
  logout = λ t. absent;
  get_user_profile = λ t s. (ok ann, s + 1);
  close = absent;
}

-- A cache that has a profile for every key.
abbrev cache : Cache ℕ
cache = record {
  set = λ k v ttl. absent;
  get = λ k s. (ok "cached", s + 100);
  delete = λ k. absent;
  ping = absent;
  close = absent;
}

abbrev pause : ℕ → ℕ → Option Err × ℕ
pause b s = (none, s + b)

abbrev resilience : ServiceResilience
unfolding new_service_resilience
resilience = auth_resilience 0
