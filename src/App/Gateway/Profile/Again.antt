-- ===== src/App/Gateway/Profile/Again.antt =====
-- Two calls of `GetUserProfile` with one token.
use notes_microservices.Prelude.{
  ℕ, ◌<◌, ◌≤◌, ◌≡◌, ◌≢◌, refl, sym, ap, ◌∙◌, String, min, Option, none, some, Option-cases, arith,
  eq_iff,
}
use mathlib.Core.Path.{subst}
use notes_microservices.Failure.{Err}
use notes_microservices.Domain.{Time, User}
use notes_microservices.Ports.{AuthBackend, Cache}
use notes_microservices.Fault.Breaker.{CircuitBreaker}
use notes_microservices.Fault.Retry.{Return}
use notes_microservices.Fault.Resilience.{ServiceResilience}
use notes_microservices.App.Gateway.{retried}
use notes_microservices.App.Gateway.Profile.{
  get_user_profile, cached_profile, remember, store_both, access_token_ttl_remaining, after_miss,
  served, profile_token_hint_key, profile_cache_ttl,
}
use notes_microservices.App.Gateway.Profile.Kept.{
  IsMap, Holds, after_reads, cached_profile-Holds, cached_profile-held, Holds-after_reads,
  store_both-Holds, Holds-same,
}

abbrev pub fetched : User → Return (Option User)
fetched u = record { value = some u; error = none }

abbrev pub hint_of : (String → String) → String → String
hint_of hash_token token = profile_token_hint_key (hash_token token)

module _ {S : Type 0} (view : S → String → Option String) (now : S → Time)
    (wait : ℕ → S → Option Err × S) (r : ServiceResilience) (client : AuthBackend S)
    (cache : Cache S) (hash_token : String → String) (expires_at : String → Option Time)
    (marshal : User → Option String) (unmarshal : String → Option User) where
  abbrev pub remaining_at : String → S → ℕ
  remaining_at token s = access_token_ttl_remaining (expires_at token) (now s)

  remaining-later :
      (token : String) (s s' : S)
      → now s ≤ now s'
      → 0 < remaining_at token s'
      → 0 < remaining_at token s
  unfolding access_token_ttl_remaining
  remaining-later token s s' later left = ground (arith, Option-cases (expires_at token))

  after_miss-Holds :
      IsMap view cache
      → (token json : String) (remaining : ℕ) (u : User) (cb' : CircuitBreaker) (s' : S)
        (out : Return (Option User)) (cb2 : CircuitBreaker) (s2 : S)
      → after_miss now wait r client cache hash_token expires_at marshal unmarshal
          (hint_of hash_token token)
          remaining
          (out, (cb2, s2))
        ≡ (fetched u, (cb', s'))
      → 0 < remaining
      → u.id ≢ ""
      → marshal u ≡ some json
      → json ≢ ""
      → unmarshal json ≡ some u
      → Holds view cache unmarshal (hint_of hash_token token) u s'
  unfolding remember
  after_miss-Holds lawful token json remaining u cb' s' out cb2 s2 first left named shown_as filled
        decoded =
      let hint = hint_of hash_token token in
      let ttl = min remaining profile_cache_ttl in
      let written : store_both cache hint ttl u (some json) s2 ≡ s' =
        ground (arith, eq_iff u.id "") in
      subst (Holds view cache unmarshal hint u) written (
        store_both-Holds view cache unmarshal lawful (hash_token token) json ttl u s2 named filled
          decoded)

  served-Holds :
      IsMap view cache
      → (token json : String) (u : User) (cb cb' : CircuitBreaker) (s s1 s' : S)
        (cached : Option User)
      → cached_profile cache unmarshal (hint_of hash_token token) (remaining_at token s) s
        ≡ (cached, s1)
      → served now wait r client cache hash_token expires_at marshal unmarshal token
          (hint_of hash_token token)
          (remaining_at token s)
          cached
          (cb, s1)
        ≡ (fetched u, (cb', s'))
      → 0 < remaining_at token s
      → u.id ≢ ""
      → marshal u ≡ some json
      → json ≢ ""
      → unmarshal json ≡ some u
      → Holds view cache unmarshal (hint_of hash_token token) u s'
  served-Holds lawful token json u cb cb' s s1 s' (some u0) read first left named shown_as filled
        decoded =
      let same : u0 ≡ u = ground arith in
      let there : s1 ≡ s' = ground arith in
      let (h, reads) =
        cached_profile-held view cache unmarshal lawful (hint_of hash_token token)
          (remaining_at token s) u s s1 (read ∙ ap (λ x. (some x, s1)) same) in
      let (k, kept) =
        Holds-after_reads view cache unmarshal lawful (hint_of hash_token token) h.id u s h in
      subst (Holds view cache unmarshal (hint_of hash_token token) u) (sym reads ∙ there) k
  served-Holds lawful token json u cb cb' s s1 s' none read first left named shown_as filled
        decoded =
      let (out, (cb2, s2)) =
        retried now wait r "get profile" (client.get_user_profile token) (cb, s1) in
      after_miss-Holds lawful token json (remaining_at token s) u cb' s' out cb2 s2 first left named
        shown_as filled decoded

  -- After a successful GetUserProfile, another one with the same token, at any later time before the
  -- token expires at which the cache holds what the first one left in it, returns the same profile from
  -- two reads of the cache: the breaker and the auth service are left alone, whatever has happened to
  -- them between the two. The cache is one that answers and keeps what it is given, and the profile
  -- one that its JSON gives back.
  pub second_from_cache :
      IsMap view cache
      → (token json : String) (u : User) (cb cb' later_cb : CircuitBreaker) (s s' later : S)
      → get_user_profile now wait r client cache hash_token expires_at marshal unmarshal token
          (cb, s)
        ≡ (fetched u, (cb', s'))
      → now s ≤ now later
      → ((key : String) → view later key ≡ view s' key)
      → 0 < remaining_at token later
      → u.id ≢ ""
      → marshal u ≡ some json
      → json ≢ ""
      → unmarshal json ≡ some u
      → (id : String) × (get_user_profile now wait r client cache hash_token expires_at marshal
            unmarshal token
            (later_cb, later)
          ≡ (fetched u, (later_cb, after_reads cache (hint_of hash_token token) id later)))
  unfolding get_user_profile
  second_from_cache lawful token json u cb cb' later_cb s s' later first passed same left named
        shown_as filled decoded =
      let (cached, s1) =
        cached_profile cache unmarshal (hint_of hash_token token) (remaining_at token s) s in
      let h =
        served-Holds lawful token json u cb cb' s s1 s' cached refl first
          (remaining-later token s later passed left) named shown_as filled decoded in
      let h' = Holds-same view cache unmarshal (hint_of hash_token token) u s' later same h in
      let hit =
        cached_profile-Holds view cache unmarshal lawful (hint_of hash_token token)
          (remaining_at token later) u later h' left in
      (
        h'.id,
        ap
            (λ x.
              served now wait r client cache hash_token expires_at marshal unmarshal token
                (hint_of hash_token token) (remaining_at token later) (x.0) (later_cb, x.1))
            hit,
      )
