-- ===== src/Rpc/Handlers.antt =====
-- The services: internal/adapters/grpc/auth_handler.go and internal/adapters/grpc/note_handler.go.
-- A getter of an absent field returns its zero value, so a request is its fields.
use notes_microservices.Prelude.{ℕ, ℤ, pos, String, ◌||◌, Option, List, map, str_eq, if◌then◌else◌}
use notes_microservices.Domain.{Note, User}
use notes_microservices.Ports.{AuthUseCase, UserUseCase, NoteUseCase}
use notes_microservices.Rpc.{
  Rpc, refuse, answer, code_invalid_argument, ProtoNote, note_to_proto, ListNotesResponse,
  TokenResponse, token_response, UserProfileResponse, clamp_int32,
}
use notes_microservices.Rpc.Errors.{auth_status_from_error, notes_status_from_error}
use notes_microservices.Rpc.Access.{Context, with_caller}

module _ {S : Type 0} (auth : AuthUseCase S) where
  unfoldable pub register : String → String → String → Rpc S TokenResponse
  unfolding auth_status_from_error
  register email username password s =
      if str_eq email "" || str_eq username "" || str_eq password ""
      then refuse code_invalid_argument "email, username and password are required" s
      else (let (r, s') = auth.register email username password s in
          (answer auth_status_from_error token_response r, s'))

  unfoldable pub login : String → String → Rpc S TokenResponse
  unfolding auth_status_from_error
  login email password s =
      if str_eq email "" || str_eq password ""
      then refuse code_invalid_argument "email and password are required" s
      else (let (r, s') = auth.login email password s in
          (answer auth_status_from_error token_response r, s'))

  unfoldable pub refresh_tokens : String → Rpc S TokenResponse
  unfolding auth_status_from_error
  refresh_tokens refresh_token s =
      if str_eq refresh_token ""
      then refuse code_invalid_argument "refresh token is required" s
      else (let (r, s') = auth.refresh_tokens refresh_token s in
          (answer auth_status_from_error token_response r, s'))

  unfoldable pub logout : String → Rpc S (Unit {0})
  unfolding auth_status_from_error
  logout refresh_token s =
      if str_eq refresh_token ""
      then refuse code_invalid_argument "refresh token is required" s
      else (let (r, s') = auth.logout refresh_token s in
          (answer auth_status_from_error (λ u. u) r, s'))

abbrev pub profile_response : User → UserProfileResponse
profile_response u = record {
  user_id = u.id;
  email = u.email;
  username = u.username;
  created_at = u.created_at;
}

module _ {S : Type 0} (users : UserUseCase S) where
  unfoldable pub get_user_profile : Context → Rpc S UserProfileResponse
  unfolding auth_status_from_error
  get_user_profile ctx = with_caller ctx (λ user_id s.
      let (r, s') = users.get_user_profile user_id s in
      (answer auth_status_from_error profile_response r, s'))

module _ {S : Type 0} (notes : NoteUseCase S) where
  unfoldable pub create_note : Context → String → String → Rpc S ProtoNote
  unfolding notes_status_from_error
  create_note ctx title content = with_caller ctx (λ user_id s.
      let (r, s') = notes.create_note user_id title content s in
      (answer notes_status_from_error note_to_proto r, s'))

  unfoldable pub get_note : Context → String → Rpc S ProtoNote
  unfolding notes_status_from_error
  get_note ctx note_id = with_caller ctx (λ user_id s.
      let (r, s') = notes.get_note user_id note_id s in
      (answer notes_status_from_error note_to_proto r, s'))

  -- The response to a page and its total count.
  unfoldable pub list_response : ℤ → ℤ → List Note × ℕ → ListNotesResponse
  unfolding clamp_int32
  list_response limit offset (rows, total) = record {
    notes = map note_to_proto rows;
    total_count = clamp_int32 (pos total);
    offset = offset;
    limit = limit;
  }

  unfoldable pub list_notes : Context → ℤ → ℤ → Rpc S ListNotesResponse
  unfolding notes_status_from_error list_response
  list_notes ctx limit offset = with_caller ctx (λ user_id s.
      let (r, s') = notes.list_notes user_id limit offset s in
      (answer notes_status_from_error (list_response limit offset) r, s'))

  unfoldable pub update_note : Context → String → Option String → Option String → Rpc S ProtoNote
  unfolding notes_status_from_error
  update_note ctx note_id title content = with_caller ctx (λ user_id s.
      let (r, s') = notes.update_note user_id note_id title content s in
      (answer notes_status_from_error note_to_proto r, s'))

  unfoldable pub delete_note : Context → String → Rpc S (Unit {0})
  unfolding notes_status_from_error
  delete_note ctx note_id = with_caller ctx (λ user_id s.
      let (r, s') = notes.delete_note user_id note_id s in
      (answer notes_status_from_error (λ u. u) r, s'))
