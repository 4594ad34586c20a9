-- ===== src/Rpc/Errors/RoundTrip.antt =====
-- Which errors survive the way from a service to the gateway.
use mathlib.Core.Path.{fun_ext, subst}
use mathlib.Core.List.{Memᴰ}
use notes_microservices.Prelude.{sym, ◌≡◌, refl, ap, ◌∙◌, String, Bool, List, [], ◌∷◌, All}
use notes_microservices.Failure.{
  Err, Sentinel, sentinel, Wraps, is, same, text, invalid_credentials, invalid_refresh_token,
  revoked_refresh_token, email_already_exists, user_already_exists, user_not_found, invalid_email,
  empty_username, username_too_long, password_too_short, password_too_weak, unauthorized,
  note_not_found, note_not_found_or_not_owned, empty_note_title, note_title_too_long,
  note_content_too_large,
}
use notes_microservices.Failure.Laws.{is-Wraps}
use notes_microservices.Rpc.{Code, RpcError}
use notes_microservices.Rpc.Errors.{
  auth_status_of, auth_status_from_error, notes_status_of, notes_status_from_error,
  status_to_domain,
}

-- A wrapped sentinel is asked for as the sentinel is.
asked_alike : {s : Sentinel} {e : Err} → Wraps s e → is e ≡ same s
asked_alike w = fun_ext (λ t. is-Wraps w t)

abbrev pub auth_sentinels : List Sentinel
auth_sentinels =
    invalid_credentials ∷ invalid_refresh_token ∷ revoked_refresh_token ∷ email_already_exists
    ∷ user_already_exists ∷ user_not_found ∷ invalid_email ∷ empty_username ∷ username_too_long
    ∷ password_too_short ∷ password_too_weak ∷ []

abbrev pub notes_sentinels : List Sentinel
notes_sentinels =
    unauthorized ∷ note_not_found ∷ note_not_found_or_not_owned ∷ empty_note_title
    ∷ note_title_too_long ∷ note_content_too_large ∷ []

All-Mem : (P : Sentinel → Type 0) (s : Sentinel) (ss : List Sentinel) → All P ss → Memᴰ s ss → P s
All-Mem P s [] h m = elim m [ ]
All-Mem P s (x ∷ xs) (p, ps) (Memᴰ.head e) = subst P (sym e) p
All-Mem P s (x ∷ xs) (p, ps) (Memᴰ.tail m) = All-Mem P s xs ps m

module _ (code_name : Code → String) (not_found : Err) where
  -- What comes back from the wire when a `switch` has an error that wraps `s`.
  abbrev returned : ((Sentinel → Bool) → RpcError) → Sentinel → Err
  returned switch s = status_to_domain code_name (switch (same s)) not_found

  auth_returned : All (λ s. returned auth_status_of s ≡ sentinel s) auth_sentinels
  unfolding status_to_domain text
  auth_returned =
      (refl, (refl, (refl, (refl, (refl, (refl, (refl, (refl, (refl, (refl, (refl, tt)))))))))))

  notes_returned : All (λ s. returned notes_status_of s ≡ sentinel s) notes_sentinels
  unfolding status_to_domain text
  notes_returned = (refl, (refl, (refl, (refl, (refl, (refl, tt))))))

  -- A sentinel of the auth service, or of the notes service, that is in its list reaches the gateway
  -- as that sentinel, however often it was wrapped.
  pub errors_survive :
      (s t : Sentinel) (d e : Err)
      → Memᴰ s auth_sentinels
      → Memᴰ t notes_sentinels
      → Wraps s d
      → Wraps t e
      → (status_to_domain code_name (auth_status_from_error d) not_found ≡ sentinel s)
        × (status_to_domain code_name (notes_status_from_error e) not_found ≡ sentinel t)
  unfolding auth_status_from_error notes_status_from_error
  errors_survive s t d e auth_member notes_member v w = (
    ap (λ asked. status_to_domain code_name (auth_status_of asked) not_found) (asked_alike v)
        ∙ All-Mem (λ s. returned auth_status_of s ≡ sentinel s) s auth_sentinels auth_returned
            auth_member,
    ap (λ asked. status_to_domain code_name (notes_status_of asked) not_found) (asked_alike w)
        ∙ All-Mem (λ s. returned notes_status_of s ≡ sentinel s) t notes_sentinels notes_returned
            notes_member,
  )
