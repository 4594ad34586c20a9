-- ===== src/Domain.antt =====
-- internal/domain/general.go: the entities, their limits, and the checks that build and change them.
-- A time is its nanoseconds after Go's zero time. `error` is an `Option Err`, and a pointer result
-- with an error is a `Result`, which every function here returns as nil with the error.
pub mod Pattern
pub mod Entities
mod Tests
use notes_microservices.Prelude.{
  ℕ, String, len, Bool, true, false, not, ◌||◌, Option, none, some, ltb, str_eq, trim_space, codes,
  if◌then◌else◌,
}
use notes_microservices.Failure.{
  Err, sentinel, empty_user_id, invalid_email, empty_username, password_too_short,
  password_too_weak, empty_note_title, note_content_too_large, note_title_too_long,
  username_too_long,
}
use notes_microservices.Action.{Result, ok, err}
use Pattern.{matches_email, has_letter, has_digit}

abbrev pub Time : Type 0
Time = ℕ

abbrev pub zero_time : Time
zero_time = 0

abbrev pub min_password_length : ℕ
min_password_length = 8

abbrev pub max_username_length : ℕ
max_username_length = 50

abbrev pub max_note_title_len : ℕ
max_note_title_len = 255

abbrev pub max_note_content_len : ℕ
max_note_content_len = 65536

pub record Note : Type 0 where
  pub created_at : Time
  pub updated_at : Time
  pub id : String
  pub user_id : String
  pub title : String
  pub content : String

pub record User : Type 0 where
  pub created_at : Time
  pub updated_at : Time
  pub id : String
  pub email : String
  pub username : String
  pub password_hash : String

pub record TokenPair : Type 0 where
  pub expires_at : Time
  pub user_id : String
  pub username : String
  pub access_token : String
  pub refresh_token : String

pub record RefreshToken : Type 0 where
  pub expires_at : Time
  pub created_at : Time
  pub id : String
  pub user_id : String
  pub token : String
  pub is_revoked : Bool

unfoldable pub validate_email : String → Option Err
validate_email email =
    if not (matches_email (codes email)) then some (sentinel invalid_email) else none

unfoldable pub validate_password : String → Option Err
validate_password password =
    if ltb (len password) min_password_length
    then some (sentinel password_too_short)
    else if not (has_letter (codes password)) || not (has_digit (codes password))
    then some (sentinel password_too_weak)
    else none

-- `strings.TrimSpace(s) == ""`
abbrev pub is_blank : String → Bool
is_blank s = str_eq (trim_space s) ""

unfoldable pub new_user : String → String → String → Result User
new_user email username password_hash = elim (validate_email email) [
  | some email_err ↦ err email_err
  | none ↦
      if is_blank username
      then err (sentinel empty_username)
      else if ltb max_username_length (len username)
      then err (sentinel username_too_long)
      else ok (record {
        created_at = zero_time;
        updated_at = zero_time;
        id = "";
        email = email;
        username = username;
        password_hash = password_hash;
      })
]

-- `now` is `time.Now().UTC()`.
unfoldable pub new_note : Time → String → String → String → Result Note
new_note now user_id title content =
    if str_eq user_id ""
    then err (sentinel empty_user_id)
    else if is_blank title
    then err (sentinel empty_note_title)
    else if ltb max_note_title_len (len title)
    then err (sentinel note_title_too_long)
    else if ltb max_note_content_len (len content)
    then err (sentinel note_content_too_large)
    else ok (record {
      created_at = now;
      updated_at = now;
      id = "";
      user_id = user_id;
      title = title;
      content = content;
    })

-- The part of `ApplyUpdate` that follows the title.
update_content : Time → Option String → Note → Option Err × Note
update_content now none n = (none, record n { updated_at = now })
update_content now (some content) n =
    if ltb max_note_content_len (len content)
    then (some (sentinel note_content_too_large), n)
    else (none, record n { content = content; updated_at = now })

-- The method writes through its receiver, so the note comes back beside an error too.
unfoldable pub apply_update : Time → Option String → Option String → Note → Option Err × Note
unfolding update_content
apply_update now none content n = update_content now content n
apply_update now (some title) content n =
    if is_blank title
    then (some (sentinel empty_note_title), n)
    else if ltb max_note_title_len (len title)
    then (some (sentinel note_title_too_long), n)
    else update_content now content (record n { title = title })
