-- ===== src/Domain/Tests.antt =====
-- The checks and constructors on concrete texts.
use notes_microservices.Prelude.{◌≡◌, refl, ◌↔◌, none, some, codes, trim_space}
use notes_microservices.Failure.{
  sentinel, invalid_email, password_too_short, password_too_weak, empty_note_title,
}
use notes_microservices.Action.{ok}
use notes_microservices.Domain.{
  Note, User, validate_email, validate_password, new_user, new_note, apply_update,
}
use notes_microservices.Domain.Pattern.{
  is_local, is_host, matches_email, matches_local_rest, matches_host, matches_host_rest, has_letter,
  has_digit,
}
use notes_microservices.Domain.Pattern.Language.{IsAddress}
use notes_microservices.Domain.Entities.{
  IsNote, validate_email_iff, new_note-IsNote, apply_update-IsNote,
}

pattern_tests : Unit {0}
unfolding validate_email matches_email matches_local_rest matches_host matches_host_rest is_local
    is_host
pattern_tests = tt

email_tests :
    (validate_email "ann.b+x@mail.example.org" ≡ none)
    × (validate_email "ann@mail" ≡ some (sentinel invalid_email))
    × (validate_email "ann@mail.c" ≡ some (sentinel invalid_email))
    × (validate_email "@mail.org" ≡ some (sentinel invalid_email))
    × (validate_email "a b@mail.org" ≡ some (sentinel invalid_email))
unfolding pattern_tests
email_tests = (refl, refl, refl, refl, refl)

password_tests :
    (validate_password "abc1" ≡ some (sentinel password_too_short))
    × (validate_password "abcdefgh" ≡ some (sentinel password_too_weak))
    × (validate_password "abcdefg1" ≡ none)
unfolding validate_password has_letter has_digit
password_tests = (refl, refl, refl)

validate_email_iff_example : (validate_email "a@b.cd" ≡ none) ↔ IsAddress (codes "a@b.cd")
validate_email_iff_example = validate_email_iff "a@b.cd"

abbrev note : Note
note = record {
  created_at = 10;
  updated_at = 10;
  id = "";
  user_id = "u1";
  title = " Milk ";
  content = "two";
}

new_note_test : new_note 10 "u1" " Milk " "two" ≡ ok note
unfolding new_note trim_space
new_note_test = refl

note-IsNote : IsNote note
note-IsNote = (new_note-IsNote 10 "u1" " Milk " "two" note new_note_test).0

-- A blank title is refused; a title that is accepted is written before the content is looked at.
apply_update_test : apply_update 20 (some "  ") none note ≡ (some (sentinel empty_note_title), note)
unfolding apply_update trim_space
apply_update_test = refl

apply_update-IsNote_example :
    let n' = (apply_update 20 (some "Bread") none note).1 in
    IsNote n' × (n'.id ≡ "") × (n'.user_id ≡ "u1") × (n'.created_at ≡ 10)
apply_update-IsNote_example = apply_update-IsNote 20 (some "Bread") none note note-IsNote

abbrev ann : User
ann = record {
  created_at = 0;
  updated_at = 0;
  id = "";
  email = "a@b.cd";
  username = "ann";
  password_hash = "h";
}

new_user_test : new_user "a@b.cd" "ann" "h" ≡ ok ann
unfolding new_user pattern_tests trim_space
new_user_test = refl
