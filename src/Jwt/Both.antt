-- ===== src/Jwt/Both.antt =====
-- A library that signs the two tokens of the user u1, and cuts a time to tens.
use Prim.Native.Nat.{◌%◌}
use notes_microservices.Prelude.{
  ◌≡◌, ◌-◌, String, Bool, true, str_eq, arith, if◌then◌else◌, sym, ◌∙◌, ◌⊎◌, ap, inl, inr,
}
use notes_microservices.Failure.{foreign, other}
use notes_microservices.Action.{Result, ok, err}
use notes_microservices.Domain.{Time}
use notes_microservices.Jwt.{JwtLibrary, Claims, token_use_access, token_use_refresh}
use notes_microservices.Jwt.Tokens.{IsSound}
use notes_microservices.Jwt.Sample.{
  matches, matches-same, parsed, parsed-early, parsed-late, parsed-claims,
}

abbrev pub claims_of : String → String → Time → Claims
claims_of username token_use expires_at = record {
  user_id = "u1";
  username = username;
  token_use = token_use;
  id = "id";
  issued_at = 100;
  expires_at = expires_at;
  subject = "u1";
}

abbrev pub access : Claims
access = claims_of "bob" token_use_access 1000

abbrev pub refresh : Claims
refresh = claims_of "" token_use_refresh 9000

abbrev pub sign_both : String → Claims → Result String
sign_both key d =
    if matches "ka" key d access
    then ok "a"
    else (if matches "kr" key d refresh then ok "r" else err (foreign other "key type"))

abbrev pub parse_both : Time → Result String → String → Result (Bool × Claims)
parse_both now k token =
    if str_eq token "a"
    then parsed "ka" access now k
    else (if str_eq token "r" then parsed "kr" refresh now k else err (foreign other "malformed"))

abbrev pub both_tokens : JwtLibrary
both_tokens = record {
  numeric_date = λ t. t - t % 10;
  signed_string = sign_both;
  parse = parse_both;
  new_string = λ n. "id";
}

sign_both-cases :
    (key token : String) (d : Claims)
    → sign_both key d ≡ ok token
    → ((matches "ka" key d access ≡ true) × (token ≡ "a"))
      ⊎ ((matches "kr" key d refresh ≡ true) × (token ≡ "r"))
sign_both-cases key token d signed = ground arith

parse_both-a :
    (now : Time) (k : Result String) (token : String)
    → token ≡ "a"
    → parse_both now k token ≡ parsed "ka" access now k
parse_both-a now k token same = ap (parse_both now k) same

parse_both-r :
    (now : Time) (k : Result String) (token : String)
    → token ≡ "r"
    → parse_both now k token ≡ parsed "kr" refresh now k
parse_both-r now k token same = ap (parse_both now k) same

pub both_tokens-IsSound : IsSound both_tokens
both_tokens-IsSound = record {
  verifies = λ key token d now signed fresh. elim (sign_both-cases key token d signed) [
    | inl (same, text) ↦
        (let (equal, known) = matches-same "ka" key access d same in
          parse_both-a now (ok key) token text
          ∙ ground (arith, equal, parsed-early "ka" key access now known))
    | inr (same, text) ↦
        (let (equal, known) = matches-same "kr" key refresh d same in
          parse_both-r now (ok key) token text
          ∙ ground (arith, equal, parsed-early "kr" key refresh now known))
  ];
  expires = λ key token d now signed stale. elim (sign_both-cases key token d signed) [
    | inl (same, text) ↦
        (let (equal, known) = matches-same "ka" key access d same in
          let (e, refused, old) = parsed-late "ka" key access now known (ground (arith, equal)) in
          (e, parse_both-a now (ok key) token text ∙ refused, old))
    | inr (same, text) ↦
        (let (equal, known) = matches-same "kr" key refresh d same in
          let (e, refused, old) = parsed-late "kr" key refresh now known (ground (arith, equal)) in
          (e, parse_both-r now (ok key) token text ∙ refused, old))
  ];
  decodes = λ key token d e now k valid signed given. elim (sign_both-cases key token d signed) [
    | inl (same, text) ↦
        parsed-claims "ka" access e now k valid (sym (parse_both-a now k token text) ∙ given)
        ∙ sym (matches-same "ka" key access d same).0
    | inr (same, text) ↦
        parsed-claims "kr" refresh e now k valid (sym (parse_both-r now k token text) ∙ given)
        ∙ sym (matches-same "kr" key refresh d same).0
  ];
}
