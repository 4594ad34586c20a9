-- ===== src/Rpc/Access/Protected.antt =====
-- Who gets an answer from a protected method.
use notes_microservices.Prelude.{
  ◌≡◌, refl, ◌∙◌, ap, sym, String, Bool, true, List, any, str_eq, arith,
}
use notes_microservices.Action.{Result, ok, err}
use notes_microservices.Ports.{TokenService}
use notes_microservices.Rpc.{Rpc, reply}
use notes_microservices.Rpc.Access.{
  Context, with_user_id, authenticated, extract_bearer_token, unary_auth_interceptor,
}

module _ {S : Type 0} {A : Type 0} where
  -- A reply shows that the check before it succeeded.
  authenticated-reply :
      (r : Result String) (k : String → Rpc S A) (s : S) (a : A)
      → (authenticated r k s).0 ≡ reply a
      → (x : String) × (r ≡ ok x) × (authenticated r k s ≡ k x s)
  authenticated-reply (ok x) k s a replied = (x, refl, refl)
  authenticated-reply (err e) k s a replied = cc

  -- A protected method answers only a request with a bearer token that the token service accepts, and
  -- its handler runs for the user whom the service names.
  pub answered_is_authenticated :
      (equal_fold : String → String → Bool) (token_svc : TokenService S) (protected : List String)
      (full_method : String) (handler : Context → Rpc S A) (ctx : Context) (s : S) (a : A)
      → any (str_eq full_method) protected ≡ true
      → (unary_auth_interceptor equal_fold token_svc protected full_method handler ctx s).0
        ≡ reply a
      → (token : String) × (id : String) × (extract_bearer_token equal_fold ctx.authorization
          ≡ ok token)
        × ((token_svc.validate_access_token token s).0 ≡ ok id)
        × (unary_auth_interceptor equal_fold token_svc protected full_method handler ctx s
            ≡ handler (with_user_id ctx id) (token_svc.validate_access_token token s).1)
  unfolding unary_auth_interceptor
  answered_is_authenticated equal_fold token_svc protected full_method handler ctx s a guarded
        replied =
      let run = unary_auth_interceptor equal_fold token_svc protected full_method handler ctx s in
      let checked : String → Rpc S A = λ token s.
        let (user_id, s') = token_svc.validate_access_token token s in
        authenticated user_id (λ id. handler (with_user_id ctx id)) s' in
      let guard : run
          ≡ authenticated (extract_bearer_token equal_fold ctx.authorization) checked s =
        ground arith in
      let (token, extracted, first) =
        authenticated-reply (extract_bearer_token equal_fold ctx.authorization) checked s a
          (ap (λ p. p.0) (sym guard) ∙ replied) in
      let (user_id, s') = token_svc.validate_access_token token s in
      let (id, valid, second) =
        authenticated-reply user_id (λ id. handler (with_user_id ctx id)) s' a
          (ap (λ p. p.0) (sym (guard ∙ first)) ∙ replied) in
      (token, id, extracted, valid, guard ∙ first ∙ second)
