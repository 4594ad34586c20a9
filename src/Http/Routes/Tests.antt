-- ===== src/Http/Routes/Tests.antt =====
-- A request without a token on services that count their calls.
use notes_microservices.Prelude.{◌≡◌, ◌⊎◌, refl, ℕ, pos, ◌+◌, false, Option, none, some, [], str_eq}
use notes_microservices.Failure.{sentinel, user_not_found}
use notes_microservices.Action.{ok}
use notes_microservices.Fault.Retry.{Return}
use notes_microservices.Http.Auth.{AuthService}
use notes_microservices.Http.Notes.{NotesService}
use notes_microservices.Http.Routes.{route, get_note}
use notes_microservices.Http.Routes.Guarded.{HasToken, guarded-HasToken}

abbrev counted : {A : Type 0} → ℕ → Return (Option A) × ℕ
counted s = (record { value = none; error = some (sentinel user_not_found) }, s + 1)

abbrev auth : AuthService ℕ
auth = record {
  register = λ e u p. counted;
  login = λ e p. counted;
  refresh_tokens = λ t. counted;
  logout = λ t s. (none, s + 1);
  get_user_profile = λ t. counted;
}

abbrev notes : NotesService ℕ
notes = record {
  create_note = λ t title content. counted;
  get_note = λ t id. counted;
  list_notes = λ t l o s. (record { value = ([], pos 0); error = none }, s + 1);
  update_note = λ t id title content. counted;
  delete_note = λ t id s. (none, s + 1);
}

guarded-HasToken_example :
    (((route str_eq
          (λ raw. none)
          (λ l n s. (false, s))
          (λ s. (ok tt, s))
          auth
          notes
          "Basic abc"
          (get_note "n1")
          0).1
        ≡ 0)
      × ((route str_eq
            (λ raw. none)
            (λ l n s. (false, s))
            (λ s. (ok tt, s))
            auth
            notes
            "Basic abc"
            (get_note "n1")
            0).0.status
          ≡ 401))
    ⊎ HasToken str_eq "Basic abc"
guarded-HasToken_example =
    guarded-HasToken str_eq (λ raw. none) (λ l n s. (false, s)) (λ s. (ok tt, s)) auth notes
      "Basic abc" (get_note "n1") 0 refl
