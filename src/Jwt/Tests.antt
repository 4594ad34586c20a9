-- ===== src/Jwt/Tests.antt =====
-- Token claims at a library that signs one set of claims with one key.
use notes_microservices.Prelude.{
  ◌≡◌, refl, pos, String, Bool, true, str_eq, str_neq, arith, eq_iff, if◌then◌else◌, sym, ap, ◌∙◌,
}
use notes_microservices.Failure.{foreign, sentinel, other, expired_jwt_token}
use notes_microservices.Action.{Result, ok, err}
use notes_microservices.Domain.{Time}
use notes_microservices.Jwt.{
  JwtLibrary, Claims, new_access_verifier, generate_token, validate_access_token, token_use_access,
}
use notes_microservices.Jwt.Sample.{
  matches, matches-same, parsed, parsed-early, parsed-late, parsed-claims,
}
use notes_microservices.Jwt.Tokens.{IsSound, access_token_lifetime}

abbrev secret : String
secret = "key"

abbrev claims_of : String → Claims
claims_of token_use = record {
  user_id = "u1";
  username = "";
  token_use = token_use;
  id = "id";
  issued_at = 100;
  expires_at = 1000;
  subject = "u1";
}

abbrev one_parsed : Claims → Time → Result String → String → Result (Bool × Claims)
one_parsed c now k token =
    if str_eq token "token" then parsed secret c now k else err (foreign other "malformed")

abbrev one_token : Claims → JwtLibrary
one_token c = record {
  numeric_date = λ t. t;
  signed_string = λ key d.
      if matches secret key d c then ok "token" else err (foreign other "key is of invalid type");
  parse = one_parsed c;
  new_string = λ n. "id";
}

one_token-signed :
    (c : Claims) (key token : String) (d : Claims)
    → (one_token c).signed_string key d ≡ ok token
    → (matches secret key d c ≡ true) × (token ≡ "token")
one_token-signed c key token d signed = ground arith

one_parsed-token :
    (c : Claims) (now : Time) (k : Result String) (token : String)
    → token ≡ "token"
    → one_parsed c now k token ≡ parsed secret c now k
one_parsed-token c now k token same = ap (one_parsed c now k) same

one_token-IsSound : (c : Claims) → IsSound (one_token c)
one_token-IsSound c = record {
  verifies = λ key token d now signed fresh.
      let (same, shown) = one_token-signed c key token d signed in
      let (equal, known) = matches-same secret key c d same in
      one_parsed-token c now (ok key) token shown
      ∙ ground (arith, equal, parsed-early secret key c now known);
  expires = λ key token d now signed stale.
      let (same, shown) = one_token-signed c key token d signed in
      let (equal, known) = matches-same secret key c d same in
      let (e, refused, old) = parsed-late secret key c now known (ground (arith, equal)) in
      (e, one_parsed-token c now (ok key) token shown ∙ refused, old);
  decodes = λ key token d e now k valid signed given.
      let (same, shown) = one_token-signed c key token d signed in
      parsed-claims secret c e now k valid (sym (one_parsed-token c now k token shown) ∙ given)
      ∙ sym (matches-same secret key c d same).0;
}

one_token-made :
    (token_use : String)
    → str_eq token_use token_use ≡ true
    → generate_token (one_token (claims_of token_use)) "u1" "" (pos 900) token_use secret 100 0
      ≡ ok ("token", 1000)
unfolding generate_token
one_token-made token_use same = ground (arith, eq_iff token_use token_use)

-- An access token of 900 seconds, made at 100, at the times 200 and 1000.
access_token_lifetime_example :
    (validate_access_token
        (one_token (claims_of token_use_access))
        (new_access_verifier secret)
        200
        "token"
      ≡ ok "u1")
    × (validate_access_token
          (one_token (claims_of token_use_access))
          (new_access_verifier secret)
          1000
          "token"
        ≡ err (sentinel expired_jwt_token))
access_token_lifetime_example =
    access_token_lifetime (one_token (claims_of token_use_access))
      (one_token-IsSound (claims_of token_use_access)) "u1" "" secret (pos 900) 100 200 1000 0
      "token" 1000 (one_token-made token_use_access refl) (str_neq "u1" "" refl) (omega arith)
      (omega arith)
