-- ===== src/Redis/Tests.antt =====
-- Cache claims at a server that keeps keys in memory.
use notes_microservices.Prelude.{ap, ℕ, ◌≡◌, refl, String, Option, none, some, arith, str_neq}
use notes_microservices.Failure.{Err, foreign, redis_nil, sentinel, user_not_found}
use notes_microservices.Action.{Action, Result, ok, err}
use notes_microservices.Domain.{User}
use notes_microservices.Ports.{AuthBackend}
use notes_microservices.Fault.Resilience.{
  ServiceResilience, new_service_resilience, execute_with_resilience_result,
}
use notes_microservices.Fault.Breaker.{CircuitBreaker, allow, record_result}
use notes_microservices.Fault.Retry.{Return, retry_execute, retry_from}
use notes_microservices.App.Gateway.{auth_resilience}
use notes_microservices.App.Gateway.Profile.{
  get_user_profile, cached_profile, remember, access_token_ttl_remaining,
}
use notes_microservices.App.Gateway.Profile.Kept.{IsMap, put, after_reads}
use notes_microservices.App.Gateway.Profile.Again.{second_from_cache, fetched, hint_of}
use notes_microservices.Redis.{Client, RedisCache, cache, get, set, default_cache_ttl}
use notes_microservices.Redis.Keys.{IsServer, cache-IsMap}

abbrev Memory : Type 0
Memory = String → Option String

abbrev read : Option String → Result String
read none = err (foreign redis_nil "redis: nil")
read (some value) = ok value

abbrev memory_client : Client Memory
memory_client = record {
  get = λ key s. (read (s key), s);
  set = λ key value ttl s. (ok tt, put key (some value) s);
  del = λ key s. (ok tt, put key none s);
  ping = λ s. (ok tt, s);
  close = λ s. (ok tt, s);
}

abbrev view : Memory → String → Option String
view s = s

memory_client-IsServer : IsServer view memory_client
memory_client-IsServer = record {
  found = λ key value s there. ap read there;
  absent = λ key s missing. (foreign redis_nil "redis: nil", ap read missing, refl);
  get-view = λ key k s. refl;
  set-result = λ key value n s more. refl;
  set-view = λ key value n s k more. refl;
  del-result = λ key s. refl;
  del-view = λ key s k. refl;
}

abbrev memory_cache : RedisCache Memory
memory_cache = record { client = memory_client; default_ttl = default_cache_ttl }

cache-IsMap_example : IsMap view (cache memory_cache)
cache-IsMap_example = cache-IsMap view memory_cache memory_client-IsServer refl

abbrev ann : User
ann = record {
  created_at = 0;
  updated_at = 0;
  id = "u1";
  email = "a@b.cd";
  username = "ann";
  password_hash = "";
}

abbrev failing : {A : Type 0} → Action Memory A
failing s = (err (sentinel user_not_found), s)

abbrev backend : AuthBackend Memory
backend = record {
  register = λ e u p. failing;
  login = λ e p. failing;
  refresh_tokens = λ t. failing;
  logout = λ t. failing;
  get_user_profile = λ t s. (ok ann, s);
  close = failing;
}

abbrev resilience : ServiceResilience
unfolding new_service_resilience
resilience = auth_resilience 0

abbrev now : Memory → ℕ
now s = 100

abbrev pause : ℕ → Memory → Option Err × Memory
pause b s = (none, s)

abbrev profile : String → CircuitBreaker × Memory → Return (Option User) × (CircuitBreaker × Memory)
profile =
    get_user_profile now pause resilience backend (cache memory_cache) (λ t. t) (λ t. some 500)
      (λ u. some "{}") (λ j. some ann)

abbrev empty : Memory
empty key = none

-- What the two writes leave: the user under its id, and the hint for the token.
abbrev filled : Memory
unfolding cache set remember
filled =
    remember (cache memory_cache) (λ u. some "{}") "profile:tok:access" 400
      (record { value = some ann; error = none }) empty

first_fetch :
    profile "access" (resilience.circuit_breaker, empty)
    ≡ (record { value = some ann; error = none }, (resilience.circuit_breaker, filled))
unfolding get_user_profile cached_profile remember access_token_ttl_remaining cache get set
    execute_with_resilience_result allow record_result retry_execute retry_from resilience filled
first_fetch = refl

-- The second fetch changes nothing at all.
second_from_cache_example :
    (id : String) × (profile "access" (resilience.circuit_breaker, filled) ≡ (
      fetched ann,
      (
        resilience.circuit_breaker,
        after_reads (cache memory_cache) (hint_of (λ t. t) "access") id filled,
      ),
    ))
unfolding access_token_ttl_remaining
second_from_cache_example =
    second_from_cache view now pause resilience backend (cache memory_cache) (λ t. t)
      (λ t. some 500) (λ u. some "{}") (λ j. some ann)
      (cache-IsMap view memory_cache memory_client-IsServer refl) "access" "{}" ann
      resilience.circuit_breaker resilience.circuit_breaker resilience.circuit_breaker empty filled
      filled first_fetch (omega arith) (λ key. refl) (omega arith) (str_neq "u1" "" refl) refl
      (str_neq "{}" "" refl) refl
