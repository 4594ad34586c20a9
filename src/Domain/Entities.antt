-- ===== src/Domain/Entities.antt =====
-- What the constructors and the update of a note guarantee.
use notes_microservices.Prelude.{
  ◌⊎◌, ℕ, ◌≤◌, ◌≡◌, sym, ◌≢◌, ◌↔◌, String, len, true, false, Option, none, some, arith, codes, any,
  eq_iff,
}
use mathlib.Core.Path.{subst}
use notes_microservices.Failure.{sentinel, password_too_weak}
use notes_microservices.Action.{ok}
use notes_microservices.Domain.{
  Note, User, is_blank, validate_email, validate_password, new_user, new_note, apply_update,
}
use notes_microservices.Domain.Pattern.{is_letter, is_digit, has_letter, has_digit}
use notes_microservices.Domain.Pattern.Language.{IsAddress, matches_email_iff}

-- An e-mail address is accepted exactly if it splits as the expression says.
pub validate_email_iff : (email : String) → (validate_email email ≡ none) ↔ IsAddress (codes email)
unfolding validate_email
validate_email_iff email =
    let both = matches_email_iff (codes email) in
    (λ h. both.0 (ground arith), λ a. ground (arith, both.1 a))

-- A password is accepted exactly if it has 8 bytes or more, a letter and a digit; if it is refused
-- as too weak it is not too short.
pub validate_password_iff :
    (p : String)
    → ((validate_password p ≡ none)
        ↔ ((8 ≤ len p) × (any is_letter (codes p) ≡ true) × (any is_digit (codes p) ≡ true)))
      × (validate_password p ≡ some (sentinel password_too_weak) → 8 ≤ len p)
unfolding validate_password has_letter has_digit
validate_password_iff p = ground arith

-- The limits on a note that the program keeps.
pub record IsNote (n : Note) : Type 0 where
  pub owned : n.user_id ≢ ""
  pub titled : is_blank n.title ≡ false
  pub title_fits : len n.title ≤ 255
  pub content_fits : len n.content ≤ 65536

-- Within the limits a note is built, with the fields that are given and both its times equal to the
-- present; a note that is built is within the limits.
pub new_note_iff :
    (now : ℕ) (user_id title content : String)
    → let n : Note = record {
      created_at = now;
      updated_at = now;
      id = "";
      user_id = user_id;
      title = title;
      content = content;
    } in
      (new_note now user_id title content ≡ ok n) ↔ IsNote n
unfolding new_note
new_note_iff now user_id title content =
    (λ h. ground (arith, eq_iff user_id ""), λ h. ground (arith, eq_iff user_id ""))

-- Every note that is built is within the limits, belongs to the user, and has no id yet.
pub new_note-IsNote :
    (now : ℕ) (user_id title content : String) (n : Note)
    → new_note now user_id title content ≡ ok n
    → IsNote n × (n.user_id ≡ user_id) × (n.title ≡ title) × (n.content ≡ content) × (n.id ≡ "")
unfolding new_note
new_note-IsNote now user_id title content n h = ground (arith, eq_iff user_id "")

-- An update, refused or not, keeps a note within the limits, and leaves its id, its owner and the
-- time of its creation alone.
pub apply_update-IsNote :
    (now : ℕ) (title content : Option String) (n : Note)
    → IsNote n
    → let n' = (apply_update now title content n).1 in
      IsNote n' × (n'.id ≡ n.id) × (n'.user_id ≡ n.user_id) × (n'.created_at ≡ n.created_at)
unfolding apply_update
apply_update-IsNote now none none n h = ground arith
apply_update-IsNote now none (some c) n h = ground arith
apply_update-IsNote now (some t) none n h = ground arith
apply_update-IsNote now (some t) (some c) n h = ground arith

abbrev or_else : Option String → String → String
or_else none s = s
or_else (some t) s = t

-- An update without an error sets the fields that are given, keeps the others, and sets the time of
-- the update; an update with an error leaves the content and the time of the update alone.
pub apply_update-fields :
    (now : ℕ) (title content : Option String) (n : Note)
    → let (e, n') = apply_update now title content n in
      ((e ≡ none)
        × (n'.title ≡ or_else title n.title)
        × (n'.content ≡ or_else content n.content)
        × (n'.updated_at ≡ now))
      ⊎ ((e ≢ none) × (n'.content ≡ n.content) × (n'.updated_at ≡ n.updated_at))
unfolding apply_update
apply_update-fields now none none n = ground arith
apply_update-fields now none (some c) n = ground arith
apply_update-fields now (some t) none n = ground arith
apply_update-fields now (some t) (some c) n = ground arith

new_user-email :
    (email username hash : String) (u : User)
    → new_user email username hash ≡ ok u
    → validate_email email ≡ none
unfolding new_user
new_user-email email username hash u h = ground arith

-- A user that is built has a valid address, a name that is not blank and has 50 bytes at most, and
-- the hash that is given; the id is left to the database.
pub new_user-fields :
    (email username hash : String) (u : User)
    → new_user email username hash ≡ ok u
    → IsAddress (codes u.email)
      × (is_blank u.username ≡ false)
      × (len u.username ≤ 50)
      × (u.email ≡ email)
      × (u.username ≡ username)
      × (u.password_hash ≡ hash)
      × (u.id ≡ "")
unfolding new_user
new_user-fields email username hash u h =
    let valid = (validate_email_iff email).0 (new_user-email email username hash u h) in
    let same : u.email ≡ email = ground arith in
    (
      subst (λ e. IsAddress (codes e)) (sym same) valid,
      ground arith,
      ground arith,
      same,
      ground arith,
      ground arith,
      ground arith,
    )

pub new_note-owner :
    (now : ℕ) (user_id title content : String) (n : Note)
    → new_note now user_id title content ≡ ok n
    → n.user_id ≡ user_id
new_note-owner now user_id title content n h = (new_note-IsNote now user_id title content n h).1

pub apply_update-owner :
    (now : ℕ) (title content : Option String) (n : Note)
    → (apply_update now title content n).1.user_id ≡ n.user_id
unfolding apply_update
apply_update-owner now none none n = ground arith
apply_update-owner now none (some c) n = ground arith
apply_update-owner now (some t) none n = ground arith
apply_update-owner now (some t) (some c) n = ground arith
