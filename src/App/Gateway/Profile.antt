-- ===== src/App/Gateway/Profile.antt =====
-- `GetUserProfile` of `AuthService` and its cache, internal/app/gateway.go. `marshal` and `unmarshal`
-- are encoding/json on a user, `expires_at` is the `exp` claim that `ParseUnverified` reads, and
-- `hash_token` is `hashToken`.
pub mod Caching
pub mod Kept
pub mod Again
use Prim.Native.String.{◌++◌}
use notes_microservices.Prelude.{
  ℕ, ℤ, pos, ◌-◌, ◌*◌, min, String, Bool, true, false, ◌||◌, ◌&&◌, not, Option, none, some, str_eq,
  ltb, if◌then◌else◌,
}
use notes_microservices.Failure.{Err}
use notes_microservices.Action.{Action, Result, ok, err}
use notes_microservices.Domain.{Time, User}
use notes_microservices.Ports.{AuthBackend, Cache}
use notes_microservices.Fault.Breaker.{CircuitBreaker}
use notes_microservices.Fault.Retry.{Return}
use notes_microservices.Fault.Resilience.{ServiceResilience, second, execute_with_resilience_result}
use notes_microservices.App.Gateway.{State, retried}

abbrev pub profile_cache_ttl : ℕ
profile_cache_ttl = 15 * 60 * second

abbrev pub profile_cache_key : String → String
profile_cache_key user_id = "profile:user:" ++ user_id

abbrev pub profile_token_hint_key : String → String
profile_token_hint_key token_hash = "profile:tok:" ++ token_hash

-- `accessTokenTTLRemaining` at the time `at`.
unfoldable pub access_token_ttl_remaining : Option Time → Time → ℕ
access_token_ttl_remaining none at = 0
access_token_ttl_remaining (some expires) at = expires - at

module _ {S : Type 0} (cache : Cache S) (unmarshal : String → Option User) where
  abbrev profile_of : Result String → Option User
  profile_of (err e) = none
  profile_of (ok cached) = if str_eq cached "" then none else unmarshal cached

  abbrev hinted : Result String → S → Option User × S
  hinted (err e) s = (none, s)
  hinted (ok user_id) s =
      if str_eq user_id ""
      then (none, s)
      else (let (cached, s') = cache.get (profile_cache_key user_id) s in (profile_of cached, s'))

  unfoldable pub cached_profile : String → ℕ → S → Option User × S
  cached_profile hint_key remaining s =
      if not (ltb 0 remaining)
      then (none, s)
      else (let (hint, s') = cache.get hint_key s in hinted hint s')

module _ {S : Type 0} (cache : Cache S) where
  -- The errors of the two writes are dropped.
  abbrev pub store_both : String → ℕ → User → Option String → S → S
  store_both hint_key ttl profile none s = s
  store_both hint_key ttl profile (some json) s =
      let (first, s') = cache.set (profile_cache_key profile.id) json (pos ttl) s in
      let (second, s'') = cache.set hint_key profile.id (pos ttl) s' in s''

  abbrev remember_profile : (User → Option String) → String → ℕ → Option Err → Option User → S → S
  remember_profile marshal hint_key remaining none (some profile) s =
      if ltb 0 remaining && not (str_eq profile.id "")
      then store_both hint_key (min remaining profile_cache_ttl) profile (marshal profile) s
      else s
  remember_profile marshal hint_key remaining e p s = s

  -- What is kept of a profile that the service returned.
  unfoldable pub remember : (User → Option String) → String → ℕ → Return (Option User) → S → S
  remember marshal hint_key remaining out s =
      remember_profile marshal hint_key remaining out.error out.value s

module _ {S : Type 0} (now : S → Time) (wait : ℕ → S → Option Err × S) (r : ServiceResilience)
    (client : AuthBackend S) (cache : Cache S) (hash_token : String → String)
    (expires_at : String → Option Time) (marshal : User → Option String)
    (unmarshal : String → Option User) where
  abbrev pub after_miss :
      String → ℕ → Return (Option User) × State S → Return (Option User) × State S
  after_miss hint_key remaining (out, (cb, s)) =
      (out, (cb, remember cache marshal hint_key remaining out s))

  abbrev pub served : String → String → ℕ → Option User → State S → Return (Option User) × State S
  served access_token hint_key remaining (some cached) st =
      (record { value = some cached; error = none }, st)
  served access_token hint_key remaining none st =
      after_miss hint_key remaining
        (retried now wait r "get profile" (client.get_user_profile access_token) st)

  unfoldable pub get_user_profile : String → State S → Return (Option User) × State S
  unfolding execute_with_resilience_result cached_profile access_token_ttl_remaining remember
  get_user_profile access_token (cb, s) =
      let remaining = access_token_ttl_remaining (expires_at access_token) (now s) in
      let hint_key = profile_token_hint_key (hash_token access_token) in
      let (cached, s') = cached_profile cache unmarshal hint_key remaining s in
      served access_token hint_key remaining cached (cb, s')
