-- ===== src/Rpc/Access/Header.antt =====
-- The `authorization` header between `outgoingContextWithToken` and `extractBearerToken`.
use Prim.Native.Char.{Char}
use Prim.Native.String.{◌++◌, ◌∷◌}
use text.Mathlib.TextLemmas.{cons-append, nil-append}
use notes_microservices.Prelude.{
  ◌≡◌, ap, ◌∙◌, String, Bool, true, some, [], ◌∷◌ as ◌∷ᴸ◌, arith, cut, trim_space, str_eq,
  if◌then◌else◌,
}
use notes_microservices.Failure.{sentinel, auth_header_not_found}
use notes_microservices.Action.{ok, err}
use notes_microservices.Rpc.Clients.{bearer_of}
use notes_microservices.Rpc.Access.{bearer, extract_bearer_token}

append-cons : (c : Char) (s t u : String) → s ++ t ≡ u → ◌≡◌ {A = String} (c ∷ s ++ t) (c ∷ u)
append-cons c s t u same = cons-append c s t ∙ ap (λ w. c ∷ w) same

spelled : (token : String) → bearer_of token ≡ "B" ∷ "e" ∷ "a" ∷ "r" ∷ "e" ∷ "r" ∷ " " ∷ token
spelled token = append-cons "B" "earer " token ("e" ∷ "a" ∷ "r" ∷ "e" ∷ "r" ∷ " " ∷ token) (
    append-cons "e" "arer " token ("a" ∷ "r" ∷ "e" ∷ "r" ∷ " " ∷ token) (
      append-cons "a" "rer " token ("r" ∷ "e" ∷ "r" ∷ " " ∷ token) (
        append-cons "r" "er " token ("e" ∷ "r" ∷ " " ∷ token) (
          append-cons "e" "r " token ("r" ∷ " " ∷ token) (
            append-cons "r" " " token (" " ∷ token)
              (append-cons " " "" token (token) (nil-append token)))))))

cut-bearer_of : (token : String) → cut 32 (bearer_of token) ≡ some ("Bearer", token)
unfolding cut
cut-bearer_of token = ap (cut 32) (spelled token)

module _ (equal_fold : String → String → Bool) (same : equal_fold "Bearer" "Bearer" ≡ true) where
  -- What `extractBearerToken` makes of the header of `outgoingContextWithToken` is the token without
  -- the space around it, and a blank token is refused, if `EqualFold` takes Bearer for itself.
  pub extract_bearer_token-bearer_of :
      (token : String)
      → extract_bearer_token equal_fold (some (bearer_of token ∷ᴸ [])) ≡ (
          if str_eq (trim_space token) ""
          then err (sentinel auth_header_not_found)
          else ok (trim_space token))
  unfolding extract_bearer_token
  extract_bearer_token-bearer_of token = ap (bearer equal_fold) (cut-bearer_of token) ∙ ground arith
