-- ===== src/Http/Notes.antt =====
-- internal/adapters/http/notes.go. A request body that does not bind is `none`.
use notes_microservices.Prelude.{
  ℤ, pos, String, Option, none, some, List, str_eq, trim_space, if◌then◌else◌,
}
use notes_microservices.Failure.{Err, sentinel, text, no_auth_header, empty_note_title}
use notes_microservices.Action.{Result, ok, err}
use notes_microservices.Domain.{Note}
use notes_microservices.Fault.Retry.{Return}
use notes_microservices.Http.{
  Response, json_response, error_response, note_body, list_body, no_body,
}
use notes_microservices.Http.Errors.{handle_error}
use notes_microservices.Http.Request.{query_int, require_token_and_note_id}
use notes_microservices.Http.Auth.{respond_return, respond_error}

pub record CreateNoteRequest : Type 0 where
  pub title : String
  pub content : String

pub record UpdateNoteRequest : Type 0 where
  pub title : Option String
  pub content : Option String

-- `ports.NotesService`
pub record NotesService (S : Type 0) : Type 0 where
  pub create_note : String → String → String → S → Return (Option Note) × S
  pub get_note : String → String → S → Return (Option Note) × S
  pub list_notes : String → ℤ → ℤ → S → Return (List Note × ℤ) × S
  pub update_note : String → String → Option String → Option String → S → Return (Option Note) × S
  pub delete_note : String → String → S → Option Err × S

abbrev pub default_list_limit : ℤ
default_list_limit = pos 10

abbrev pub with_token_and_note_id :
    {S : Type 0}
    → Result (String × String)
    → (String → String → S → Response × S)
    → S
    → Response × S
with_token_and_note_id (err e) k s = (handle_error e, s)
with_token_and_note_id (ok (token, note_id)) k s = k token note_id s

abbrev pub page_response : ℤ → ℤ → Option Err → List Note × ℤ → Response
page_response limit offset (some e) page = handle_error e
page_response limit offset none (rows, total) =
    json_response 200 (list_body rows total offset limit)

module _ {S : Type 0} (service : NotesService S) where
  -- What follows when the body binds.
  abbrev pub create_bound : String → Option CreateNoteRequest → S → Response × S
  create_bound token none s = (error_response 400 "invalid request body", s)
  create_bound token (some req) s =
      if str_eq (trim_space req.title) ""
      then (handle_error (sentinel empty_note_title), s)
      else (let (out, s') = service.create_note token req.title req.content s in
          (respond_return 201 note_body out, s'))

  unfoldable pub create_note : String → Option CreateNoteRequest → S → Response × S
  unfolding handle_error
  create_note token req s =
      if str_eq token ""
      then (error_response 401 (text no_auth_header), s)
      else create_bound token req s

  unfoldable pub get_note : String → String → S → Response × S
  unfolding handle_error require_token_and_note_id
  get_note token note_id =
      with_token_and_note_id (require_token_and_note_id token note_id) (λ token note_id s.
        let (out, s') = service.get_note token note_id s in (respond_return 200 note_body out, s'))

  unfoldable pub list_notes : (String → Option ℤ) → String → String → String → S → Response × S
  unfolding handle_error query_int
  list_notes atoi token raw_limit raw_offset s =
      if str_eq token ""
      then (error_response 401 (text no_auth_header), s)
      else (let limit = query_int atoi raw_limit default_list_limit in
          let offset = query_int atoi raw_offset (pos 0) in
          let (out, s') = service.list_notes token limit offset s in
          (page_response limit offset out.error out.value, s'))

  abbrev pub update_bound : String → String → Option UpdateNoteRequest → S → Response × S
  update_bound token note_id none s = (error_response 400 "invalid request body", s)
  update_bound token note_id (some req) s =
      let (out, s') = service.update_note token note_id req.title req.content s in
      (respond_return 200 note_body out, s')

  unfoldable pub update_note : String → String → Option UpdateNoteRequest → S → Response × S
  unfolding handle_error require_token_and_note_id
  update_note token note_id req =
      with_token_and_note_id (require_token_and_note_id token note_id)
        (λ token note_id. update_bound token note_id req)

  abbrev pub replace_fields : String → String → Option String → Option String → S → Response × S
  replace_fields token note_id (some title) (some content) s =
      let (out, s') = service.update_note token note_id (some title) (some content) s in
      (respond_return 200 note_body out, s')
  replace_fields token note_id _ _ s = (error_response 400 "title and content are required", s)

  abbrev pub replace_bound : String → String → Option UpdateNoteRequest → S → Response × S
  replace_bound token note_id none s = (error_response 400 "invalid request body", s)
  replace_bound token note_id (some req) s = replace_fields token note_id req.title req.content s

  unfoldable pub replace_note : String → String → Option UpdateNoteRequest → S → Response × S
  unfolding handle_error require_token_and_note_id
  replace_note token note_id req =
      with_token_and_note_id (require_token_and_note_id token note_id)
        (λ token note_id. replace_bound token note_id req)

  unfoldable pub delete_note : String → String → S → Response × S
  unfolding handle_error require_token_and_note_id
  delete_note token note_id =
      with_token_and_note_id (require_token_and_note_id token note_id) (λ token note_id s.
        let (e, s') = service.delete_note token note_id s in
        (respond_error (json_response 204 no_body) e, s'))
