-- ===== src/App/Gateway/Profile/Caching.antt =====
-- When a profile is read from the cache.
use notes_microservices.Prelude.{ℕ, ◌≡◌, String, Option, arith}
use notes_microservices.Failure.{Err}
use notes_microservices.Domain.{Time, User}
use notes_microservices.Ports.{AuthBackend, Cache}
use notes_microservices.Fault.Breaker.{CircuitBreaker}
use notes_microservices.Fault.Resilience.{ServiceResilience}
use notes_microservices.App.Gateway.{retried}
use notes_microservices.App.Gateway.Profile.{
  get_user_profile, cached_profile, remember, access_token_ttl_remaining,
}

module _ {S : Type 0} (now : S → Time) (wait : ℕ → S → Option Err × S) (r : ServiceResilience)
    (client : AuthBackend S) (cache : Cache S) (hash_token : String → String)
    (expires_at : String → Option Time) (marshal : User → Option String)
    (unmarshal : String → Option User) where
  -- With a token that has expired, or whose expiry cannot be read, the profile comes from the auth
  -- service alone: the cache is neither read nor written, whatever it holds.
  pub expired_bypasses_cache :
      (token : String) (cb : CircuitBreaker) (s : S)
      → access_token_ttl_remaining (expires_at token) (now s) ≡ 0
      → get_user_profile now wait r client cache hash_token expires_at marshal unmarshal token
          (cb, s)
        ≡ retried now wait r "get profile" (client.get_user_profile token) (cb, s)
  unfolding get_user_profile cached_profile remember
  expired_bypasses_cache token cb s h = ground arith
