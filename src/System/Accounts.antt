-- ===== src/System/Accounts.antt =====
-- The way of a request for accounts from the gateway's client to the tables, as `StartAuth` and
-- `StartGateway` join the parts: the client, the wire, the auth interceptor with the issuer of tokens,
-- the handlers of the auth service, and its use cases over Postgres and bcrypt.
pub mod Profile
pub mod Own
mod Tests
use notes_microservices.Prelude.{ℤ, String, Bool, Option, none, some, List, [], ◌∷◌}
use notes_microservices.Failure.{Err}
use notes_microservices.Action.{Action}
use notes_microservices.Ports.{AuthUseCase, UserUseCase, AuthBackend, TokenService, PasswordService}
use notes_microservices.App.Auth
use notes_microservices.Postgres.Store.{Server, Database}
use notes_microservices.Postgres.Users.{user_repository}
use notes_microservices.Service.Auth as AuthService
use notes_microservices.Rpc.{Code, Rpc}
use notes_microservices.Rpc.Access.{Context, unary_auth_interceptor}
use notes_microservices.Rpc.Clients.{AuthServiceClient, auth_client}
use notes_microservices.Rpc.Handlers
use notes_microservices.System.{Wire}

-- The full names of the methods of AuthService and UserService.
abbrev pub register_method : String
register_method = "/auth.v1.AuthService/Register"

abbrev pub login_method : String
login_method = "/auth.v1.AuthService/Login"

abbrev pub refresh_tokens_method : String
refresh_tokens_method = "/auth.v1.AuthService/RefreshTokens"

abbrev pub logout_method : String
logout_method = "/auth.v1.AuthService/Logout"

abbrev pub get_user_profile_method : String
get_user_profile_method = "/auth.v1.UserService/GetUserProfile"

module _ (sv : Server) (hash_token : String → String) (passwords : PasswordService Database)
    (signer : TokenService Database) where
  abbrev pub auth_use_case : AuthUseCase Database
  auth_use_case = record {
    register = AuthService.register sv hash_token passwords signer;
    login = AuthService.login sv hash_token passwords signer;
    refresh_tokens = AuthService.refresh_tokens sv hash_token passwords signer;
    logout = AuthService.logout sv hash_token passwords signer;
  }

  abbrev pub user_use_case : UserUseCase Database
  user_use_case = record { get_user_profile = Auth.get_user_profile (user_repository sv) }

  module _ (equal_fold : String → String → Bool) (wire : Wire Database) where
    -- A call of a method with the values of its `authorization` key, on the auth service.
    abbrev pub call_auth :
        {A : Type 0} → String → (Context → Rpc Database A) → Option (List String) → Rpc Database A
    call_auth method handler authorization = wire.deliver (
        unary_auth_interceptor equal_fold signer (get_user_profile_method ∷ []) method handler
          (record { authorization = authorization; user_id = "" }))

    abbrev pub auth_service_client : AuthServiceClient Database
    auth_service_client = record {
      register = λ email username password.
          call_auth register_method (λ ctx. Handlers.register auth_use_case email username password)
            none;
      login = λ email password.
          call_auth login_method (λ ctx. Handlers.login auth_use_case email password) none;
      refresh_tokens = λ token.
          call_auth refresh_tokens_method (λ ctx. Handlers.refresh_tokens auth_use_case token) none;
      logout = λ token. call_auth logout_method (λ ctx. Handlers.logout auth_use_case token) none;
      get_user_profile = λ authorization.
          call_auth get_user_profile_method (Handlers.get_user_profile user_use_case)
            (some (authorization ∷ []));
    }

    unfoldable pub auth_backend :
        (Code → String) → Action Database (Unit {0}) → AuthBackend Database
    unfolding auth_client unary_auth_interceptor
    auth_backend code_name close = auth_client code_name auth_service_client close
