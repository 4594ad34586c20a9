-- ===== src/Http/Routes/Guarded.antt =====
-- What the routes of the user and of the notes answer without a token.
use notes_microservices.Prelude.{
  ◌≡◌, ◌≢◌, ◌⊎◌, inl, inr, refl, ℤ, ℕ, String, Bool, true, false, not, ◌||◌, Option, none, some,
  cut, trim_space, str_eq, arith, eq_iff, Bool-cases,
}
use notes_microservices.Action.{Action}
use notes_microservices.Http.{Response}
use notes_microservices.Http.Request.{auth_middleware, authorized}
use notes_microservices.Http.Auth.{AuthService}
use notes_microservices.Http.Notes.{NotesService}
use notes_microservices.Http.Routes.{
  Call, Limiter, route, with_auth, health, ready, other, guarded_other, register, login, refresh,
  logout, profile, create_note, get_note, list_notes, update_note, replace_note, delete_note,
}

-- The calls of the two groups behind the auth middleware.
abbrev pub is_guarded : Call → Bool
is_guarded health = false
is_guarded ready = false
is_guarded other = false
is_guarded (register req) = false
is_guarded (login req) = false
is_guarded (refresh token) = false
is_guarded (logout token) = false
is_guarded call = true

-- A header whose first space parts the scheme Bearer from a token that is not blank.
pub record HasToken (equal_fold : String → String → Bool) (auth_header : String) : Type 0 where
  pub scheme : String
  pub rest : String
  pub parts : cut 32 auth_header ≡ some (scheme, rest)
  pub is_bearer : equal_fold scheme "Bearer" ≡ true
  pub filled : trim_space rest ≢ ""

module _ {S : Type 0} (equal_fold : String → String → Bool) (atoi : String → Option ℤ)
    (limited : Limiter → ℕ → S → Bool × S) (ping : Action S (Unit {0})) (auth : AuthService S)
    (notes : NotesService S) where
  parted-refuses :
      (auth_header : String) (next : String → S → Response × S) (s : S)
      (p : Option (String × String))
      → cut 32 auth_header ≡ p
      → (((authorized equal_fold p next (λ response s. (response, s)) s).1 ≡ s)
          × ((authorized equal_fold p next (λ response s. (response, s)) s).0.status ≡ 401))
        ⊎ HasToken equal_fold auth_header
  parted-refuses auth_header next s none same = inl (refl, refl)
  parted-refuses auth_header next s (some (scheme, rest)) same =
      elim (Bool-cases (not (equal_fold scheme "Bearer") || str_eq (trim_space rest) "")) [
        | inl refused ↦ inl (ground arith, ground arith)
        | inr taken ↦ inr (record {
          scheme = scheme;
          rest = rest;
          parts = same;
          is_bearer = ground arith;
          filled = ground (arith, eq_iff (trim_space rest) "");
        })
      ]

  with_auth-refuses :
      (auth_header : String) (next : String → S → Response × S) (s : S)
      → (((with_auth equal_fold atoi limited ping auth notes auth_header next s).1 ≡ s)
          × ((with_auth equal_fold atoi limited ping auth notes auth_header next s).0.status ≡ 401))
        ⊎ HasToken equal_fold auth_header
  unfolding auth_middleware
  with_auth-refuses auth_header next s = elim (Bool-cases (str_eq auth_header "")) [
    | inl missing ↦ inl (ground arith, ground arith)
    | inr given ↦
        (let parted = parted-refuses auth_header next s (cut 32 auth_header) refl in
          elim parted [
            | inl (same, refused) ↦ inl (ground arith, ground arith)
            | inr token ↦ inr token
          ])
  ]

  -- A request for the profile, for notes or for any other path below their groups either carries a
  -- bearer token that is not blank, or is answered with 401 and changes nothing: no service is asked.
  pub guarded-HasToken :
      (auth_header : String) (call : Call) (s : S)
      → is_guarded call ≡ true
      → (((route equal_fold atoi limited ping auth notes auth_header call s).1 ≡ s)
          × ((route equal_fold atoi limited ping auth notes auth_header call s).0.status ≡ 401))
        ⊎ HasToken equal_fold auth_header
  unfolding route
  guarded-HasToken auth_header health s guarded = ground arith
  guarded-HasToken auth_header ready s guarded = ground arith
  guarded-HasToken auth_header other s guarded = ground arith
  guarded-HasToken auth_header (register req) s guarded = ground arith
  guarded-HasToken auth_header (login req) s guarded = ground arith
  guarded-HasToken auth_header (refresh token) s guarded = ground arith
  guarded-HasToken auth_header (logout token) s guarded = ground arith
  guarded-HasToken auth_header guarded_other s guarded = with_auth-refuses auth_header _ s
  guarded-HasToken auth_header profile s guarded = with_auth-refuses auth_header _ s
  guarded-HasToken auth_header (create_note req) s guarded = with_auth-refuses auth_header _ s
  guarded-HasToken auth_header (get_note note_id) s guarded = with_auth-refuses auth_header _ s
  guarded-HasToken auth_header (list_notes limit offset) s guarded =
      with_auth-refuses auth_header _ s
  guarded-HasToken auth_header (update_note note_id req) s guarded =
      with_auth-refuses auth_header _ s
  guarded-HasToken auth_header (replace_note note_id req) s guarded =
      with_auth-refuses auth_header _ s
  guarded-HasToken auth_header (delete_note note_id) s guarded = with_auth-refuses auth_header _ s
