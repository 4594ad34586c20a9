-- ===== src/System/Accounts/Own.antt =====
-- From a login to the profile.
use notes_microservices.Prelude.{ℕ, ◌≡◌, sym, ap, ◌∙◌, ℤ, String, Bool, true, trim_space}
use mathlib.Core.Path.{subst}
use notes_microservices.Action.{Action, ok}
use notes_microservices.Domain.{User, TokenPair}
use notes_microservices.Ports.{PasswordService, TokenService, AuthBackend}
use notes_microservices.Postgres.Store.{Server, Database, now}
use notes_microservices.Postgres.Users.{user_repository}
use notes_microservices.Postgres.Tokens.{token_repository}
use notes_microservices.Service.Auth.{login}
use notes_microservices.Jwt.{
  JwtLibrary, token_service, new_issuer, token_use_access, validate_access_token,
}
use notes_microservices.Jwt.Tokens.{IsSound, validated_user}
use notes_microservices.Rpc.{Code}
use notes_microservices.System.{Wire}
use notes_microservices.System.Login.{issuer, login-IsSigned}
use notes_microservices.System.Accounts.{auth_backend}
use notes_microservices.System.Accounts.Profile.{IsHonest, IsRowOf, get_user_profile-IsRowOf}

module _ (sv : Server) (hash_token : String → String) (passwords : PasswordService Database)
    (lib : JwtLibrary) (drawn : Database → ℕ) (draw : Database → Database)
    (access_secret refresh_secret : String) (access_ttl refresh_ttl : ℤ)
    (equal_fold : String → String → Bool) (wire : Wire Database) (code_name : Code → String)
    (close : Action Database (Unit {0})) where
  abbrev signer : TokenService Database
  signer = issuer lib now drawn draw access_secret refresh_secret access_ttl refresh_ttl

  abbrev client : AuthBackend Database
  client = auth_backend sv hash_token passwords signer equal_fold wire code_name close

  -- The profile that the gateway's client brings for the access token of a login is the row, in the
  -- table of users at that time, of the user who logged in, over a wire that brings the service's
  -- answers, if tokens parse to the claims that were signed, the token has no space around it, and
  -- EqualFold takes Bearer for itself.
  pub login-get_user_profile :
      IsSound lib
      → equal_fold "Bearer" "Bearer" ≡ true
      → IsHonest wire
      → (email password : String) (pair : TokenPair) (db later : Database) (u : User)
      → (login sv hash_token passwords signer email password db).0 ≡ ok pair
      → trim_space pair.access_token ≡ pair.access_token
      → (client.get_user_profile pair.access_token later).0 ≡ ok u
      → IsRowOf later.users pair.user_id u
  unfolding token_service
  login-get_user_profile sound same honest email password pair db later u given bare shown =
      let signed =
        login-IsSigned now hash_token (user_repository sv) (token_repository sv) passwords signer
          email password pair db given in
      let user = signed.user in
      let (access, access_at) = signed.access in
      let (at, id, valid, row) =
        get_user_profile-IsRowOf sv hash_token passwords lib drawn draw access_secret refresh_secret
          access_ttl refresh_ttl equal_fold wire code_name close same honest pair.access_token later
          u shown in
      let verifier = new_issuer access_secret refresh_secret access_ttl refresh_ttl in
      let is_access = bare ∙ ap (λ (p : TokenPair). p.access_token) signed.is_pair in
      let accepted = ap (validate_access_token lib verifier at) (sym is_access) ∙ valid in
      let same_user =
        validated_user lib sound user.id user.username access_secret token_use_access access_ttl
          (now signed.at) at (drawn signed.at) access access_at verifier id signed.access_made
          accepted
        ∙ sym (ap (λ (p : TokenPair). p.user_id) signed.is_pair) in
      subst (λ i. IsRowOf later.users i u) same_user row
