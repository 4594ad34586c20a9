-- ===== src/Bootstrap/Tests.antt =====
-- Start-up claims on a state that counts what is open of each part.
use notes_microservices.Prelude.{
  ℕ, ◌+◌, ◌-◌, ◌≡◌, ◌↔◌, ◌⊎◌, inl, inr, Option-cases, true, false, refl, pos, none, some, List, [],
  ◌∷◌, arith,
}
use notes_microservices.Failure.{
  Err, wrap, redis_config_required, sentinel, foreign, other, deadline_exceeded,
}
use notes_microservices.Action.{Result, ok, err}
use notes_microservices.Config.{Config}
use notes_microservices.Ports.{Cache}
use notes_microservices.Bootstrap.{ensure_auth_jwt, empty_config, require_gateway_config}
use notes_microservices.Redis.{Client, RedisCache, cache, new_redis_cache}
use notes_microservices.Bootstrap.Checks.{HasSecrets, ensure_auth_jwt_iff}
use notes_microservices.Bootstrap.Run.{
  Hook, signalled, server_ended, wait, ServiceHost, GatewayHost, start_auth, start_notes,
  start_gateway,
}
use notes_microservices.Bootstrap.Run.Release.{
  Part, pool, server, auth_conn, notes_conn, cache_client, listener, only, MayLeak, GatewayIsTidy,
  start_gateway-releases,
}
use notes_microservices.Bootstrap.Run.Services.{ServiceIsTidy, start_service-releases}

abbrev two_secrets : Config
two_secrets = record empty_config {
  jwt = some (record {
    access_secret_key = " change-me-access-secret-key-32b-min";
    refresh_secret_key = "change-me-refresh-secret-key-32b-min";
    secret_key = "";
    access_token_ttl = "15m";
    refresh_token_ttl = "24h";
    bcrypt_cost = pos 10;
  });
}

ensure_auth_jwt_iff_example : (ensure_auth_jwt two_secrets ≡ none) ↔ HasSecrets two_secrets
ensure_auth_jwt_iff_example = ensure_auth_jwt_iff two_secrets

-- Two hooks, of which the first fails.
abbrev two_hooks : List (Hook ℕ)
two_hooks = (λ s. (some (sentinel deadline_exceeded), s + 1)) ∷ (λ s. (none, s + 10)) ∷ []

two_hooks_test : wait (λ s. (signalled, s)) two_hooks 0 ≡ (sentinel deadline_exceeded ∷ [], 11)
unfolding wait
two_hooks_test = refl

abbrev Counter : Type 0
Counter = Part → ℕ

abbrev nothing : Counter
nothing q = 0

abbrev opening : Part → Counter → Counter
opening p s q = s q + only p q

abbrev closing : Part → Counter → Counter
closing p s q = s q - only p q

abbrev held : Part → Counter → ℕ
held q s = s q

-- A configuration that the gateway goes on with.
abbrev gateway_config : Config
gateway_config = record empty_config {
  shutdown = some (record { timeout = pos 5 });
  grpc_client = some (record {
    auth_service = record { host = "auth"; port = pos 50051; connect_timeout = pos 1 };
    notes_service = record { host = "notes"; port = pos 50052; connect_timeout = pos 1 };
    request_timeout = pos 1;
    insecure = true;
  });
  http = some (record {
    host = "0.0.0.0";
    read_timeout = pos 1;
    write_timeout = pos 1;
    shutdown_timeout = pos 1;
    port = pos 8080;
    trust_proxy = false;
    trust_private_proxies = false;
  });
  redis = some (record {
    host = "redis";
    password = "";
    connect_timeout = pos 1;
    read_timeout = pos 1;
    write_timeout = pos 1;
    idle_timeout = pos 1;
    max_conn_lifetime = pos 1;
    default_ttl = pos 1;
    port = pos 6379;
    db = pos 0;
    pool_size = pos 1;
    min_idle = pos 1;
  });
}

gateway_config_test : require_gateway_config gateway_config ≡ none
unfolding require_gateway_config
gateway_config_test = refl

abbrev down : Err
down = foreign other "connection refused"

-- A client of a server that is down, which counts as open from its first command on.
abbrev down_client : Client Counter
down_client = record {
  get = λ key s. (err down, s);
  set = λ key value ttl s. (err down, s);
  del = λ key s. (err down, s);
  ping = λ s. (err down, opening cache_client s);
  close = λ s. (ok tt, closing cache_client s);
}

abbrev as_cache : Result (RedisCache Counter) × Counter → Result (Cache Counter) × Counter
as_cache (ok c, s) = (ok (cache c), s)
as_cache (err e, s) = (err e, s)

-- A gateway whose Redis is down.
abbrev gateway : GatewayHost Counter ℕ ℕ
gateway = record {
  init_service = λ path s. (ok gateway_config, s);
  new_auth_client = λ cfg s. (ok 1, opening auth_conn s);
  new_notes_client = λ cfg s. (ok 2, opening notes_conn s);
  close_auth = λ a s. (err (foreign other "closing"), closing auth_conn s);
  close_notes = λ b s. (ok tt, closing notes_conn s);
  new_redis_cache =
      λ cfg s. as_cache (new_redis_cache (λ host port. host) (λ options. down_client) (some cfg) s);
  join_host_port = λ host port. host;
  listen = λ address s. (ok tt, opening listener s);
  shutdown = λ s. (ok tt, closing listener s);
  select = λ s. (signalled, s);
}

failed_cache :
    (cfg : Config) (s : Counter) → (e : Err) × ((gateway.new_redis_cache cfg s).0 ≡ err e)
unfolding new_redis_cache
failed_cache cfg s = elim (Option-cases cfg.redis) [
  | inl absent ↦ (sentinel redis_config_required, rw absent refl)
  | inr (c, given) ↦ (wrap "redis: connect" down, rw given refl)
]

leaking_cache : (cfg : Config) → MayLeak held cache_client (gateway.new_redis_cache cfg)
unfolding new_redis_cache
leaking_cache cfg q s = elim (Option-cases cfg.redis) [
  | inl absent ↦ inl (rw absent (omega arith))
  | inr (c, given) ↦ inr (failed_cache cfg s, rw given refl)
]

gateway-IsTidy : GatewayIsTidy held gateway
gateway-IsTidy = record {
  init_leaves = λ path q s. refl;
  auth_opens = λ cfg q s. refl;
  notes_opens = λ cfg q s. refl;
  cache_opens = leaking_cache;
  listen_opens = λ address q s. refl;
  auth_closes = λ a q s n had. omega (arith, had);
  notes_closes = λ b q s n had. omega (arith, had);
  cache_closes = λ cfg s c made. let (e, failed) = failed_cache cfg s in cc;
  shutdown_closes = λ q s n had. omega (arith, had);
  select_leaves = λ q s. refl;
}

-- The client stays open.
leak_test : (start_gateway gateway "config.yaml" nothing).1 cache_client ≡ 1
unfolding start_gateway new_redis_cache require_gateway_config
leak_test = refl

start_gateway-releases_example :
    let (errs, s') = start_gateway gateway "config.yaml" nothing in
    (held cache_client s' ≡ 0)
    ⊎ ((held cache_client s' ≡ 1)
        × ((cfg : Config) × (t : Counter) × (e : Err) × ((gateway.new_redis_cache cfg t).0 ≡ err e)
            × (errs ≡ e ∷ [])))
start_gateway-releases_example =
    start_gateway-releases held gateway gateway-IsTidy "config.yaml" cache_client nothing

-- A service that runs until its server fails.
abbrev service : ServiceHost Counter ℕ
service = record {
  init_service = λ path s. (ok two_secrets, s);
  setup_postgres = λ cfg name s. (ok 1, opening pool s);
  close = λ database s. closing pool s;
  start = λ cfg database s. (ok tt, opening server s);
  stop = closing server;
  cleanup = λ database s. s;
  select = λ s. (server_ended (some (foreign other "broken listener")), s);
}

service-IsTidy : ServiceIsTidy held service
service-IsTidy = record {
  init_leaves = λ path q s. refl;
  pool_opens = λ cfg name q s. refl;
  pool_closes = λ database q s n had. omega (arith, had);
  server_opens = λ cfg database q s. refl;
  server_closes = λ q s n had. omega (arith, had);
  cleanup_leaves = λ database q s. refl;
  select_leaves = λ q s. refl;
}

start_service-releases_example :
    (held pool ((start_auth service "config.yaml" nothing).1) ≡ 0)
    × (held pool ((start_notes service "config.yaml" nothing).1) ≡ 0)
start_service-releases_example =
    start_service-releases held service service-IsTidy "config.yaml" pool nothing
