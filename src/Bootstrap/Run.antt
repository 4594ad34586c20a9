-- ===== src/Bootstrap/Run.antt =====
-- The run of a program: `Wait` of internal/bootstrap/helpers.go, and internal/bootstrap/bootstrap.go.
-- The errors that `errors.Join` keeps are a list, empty for nil.
pub mod Hooks
pub mod Release
pub mod Services
use notes_microservices.Prelude.{
  ℕ, ℤ, String, Bool, true, false, Option, none, some, List, [], ◌∷◌, ◌++◌, if◌then◌else◌,
}
use Prim.Native.String.{◌++◌ as ◌+++◌}
use notes_microservices.Failure.{Err, wrap}
use notes_microservices.Action.{Action, Result, ok, err}
use notes_microservices.Config.{Config, GrpcConfig, HttpConfig}
use notes_microservices.Ports.{TokenRepository, Cache}
use notes_microservices.Bootstrap.{ensure_auth_jwt, ensure_notes_jwt, require_gateway_config}

-- What ends the `select`: a signal, the end of the context, or a value from the server's channel.
pub data Wake : Type 0 where
  signalled cancelled : Wake
  server_ended : Option Err → Wake

abbrev pub run_error : Wake → List Err
run_error (server_ended (some e)) = wrap "server terminated unexpectedly" e ∷ []
run_error wake = []

-- errors.Join(shutdownErr, err), where `err` may be nil.
abbrev pub join : List Err → Option Err → List Err
join errs none = errs
join errs (some e) = errs ++ e ∷ []

-- A hook with the context of the shutdown, whose deadline is part of the state.
abbrev pub Hook : Type 0 → Type 0
Hook S = S → Option Err × S

abbrev pub returned : Result (Unit {0}) → Option Err
returned (ok u) = none
returned (err e) = some e

module _ {S : Type 0} where
  abbrev pub run_hooks : List (Hook S) → List Err → S → List Err × S
  run_hooks [] shutdown_err s = (shutdown_err, s)
  run_hooks (hook ∷ hooks) shutdown_err s =
      let (e, s') = hook s in run_hooks hooks (join shutdown_err e) s'

  unfoldable pub wait : (S → Wake × S) → List (Hook S) → S → List Err × S
  wait select hooks s =
      let (wake, s') = select s in
      let (shutdown_err, s'') = run_hooks hooks [] s' in (run_error wake ++ shutdown_err, s'')

  -- A hook that returns nil.
  abbrev pub quietly : (S → S) → Hook S
  quietly f s = (none, f s)

  -- A hook that returns what a call returns.
  abbrev pub returning : Action S (Unit {0}) → Hook S
  returning call s = let (r, s') = call s in (returned r, s')

  -- `_ = c.Close()`
  abbrev pub dropping : Action S (Unit {0}) → S → S
  dropping call s = let (r, s') = call s in s'

-- What a `select` of `runTokenCleanup` takes.
pub data Tick : Type 0 where
  tick done : Tick

module _ {S : Type 0} (token_repo : TokenRepository S) where
  -- The values that the channels give, up to the end of the context; errors are only logged.
  unfoldable pub run_token_cleanup : List Tick → S → S
  run_token_cleanup [] s = s
  run_token_cleanup (done ∷ ticks) s = s
  run_token_cleanup (tick ∷ ticks) s =
      run_token_cleanup ticks (dropping token_repo.cleanup_expired_tokens s)

-- What a service is started with: `init_service` and `setup_postgres` of Bootstrap, the pool's
-- `Close`, `Start` and `Stop` of Rpc/Server, and the `select` of `Wait`. `cleanup` is the goroutine
-- of StartAuth, from its start to its end after `stopCleanup`.
pub record ServiceHost (S P : Type 0) : Type 0 where
  pub init_service : String → Action S Config
  pub setup_postgres : Config → String → Action S P
  pub close : P → S → S
  pub start : Config → P → Action S (Unit {0})
  pub stop : S → S
  pub cleanup : P → S → S
  pub select : S → Wake × S

module _ {S P : Type 0} (host : ServiceHost S P) where
  abbrev pub hooks_of : Bool → P → List (Hook S)
  hooks_of with_cleanup database =
      quietly host.stop ∷ (if with_cleanup then quietly (host.cleanup database) ∷ [] else [])
      ++ quietly (host.close database) ∷ []

  abbrev pub started : Bool → P → Result (Unit {0}) × S → List Err × S
  started with_cleanup database (err e, s) = (e ∷ [], host.close database s)
  started with_cleanup database (ok u, s) = wait host.select (hooks_of with_cleanup database) s

  abbrev pub with_secrets : Bool → Config → P → Option Err → S → List Err × S
  with_secrets with_cleanup cfg database (some e) s = (e ∷ [], host.close database s)
  with_secrets with_cleanup cfg database none s =
      started with_cleanup database (host.start cfg database s)

  abbrev pub with_database : (Config → Option Err) → Bool → Config → Result P × S → List Err × S
  with_database ensure with_cleanup cfg (err e, s) = (e ∷ [], s)
  with_database ensure with_cleanup cfg (ok database, s) =
      with_secrets with_cleanup cfg database (ensure cfg) s

  abbrev pub configured : (Config → Option Err) → Bool → String → Result Config × S → List Err × S
  configured ensure with_cleanup name (err e, s) = (e ∷ [], s)
  configured ensure with_cleanup name (ok cfg, s) =
      with_database ensure with_cleanup cfg (host.setup_postgres cfg name s)

  -- `StartAuth`
  unfoldable pub start_auth : String → S → List Err × S
  unfolding ensure_auth_jwt
  start_auth config_path s =
      configured ensure_auth_jwt true "auth" (host.init_service config_path s)

  -- `StartNotes`
  unfoldable pub start_notes : String → S → List Err × S
  unfolding ensure_notes_jwt
  start_notes config_path s =
      configured ensure_notes_jwt false "notes" (host.init_service config_path s)

-- What the gateway is started with: the connections of `NewAuthClient` and `NewNotesClient`
-- (Rpc/Connection) with their `Close`, the cache of `NewRedisCache` (Redis), the listener, and the
-- fiber app on it; `shutdown` is `ShutdownWithContext`.
pub record GatewayHost (S A N : Type 0) : Type 0 where
  pub init_service : String → Action S Config
  pub new_auth_client : Config → Action S A
  pub new_notes_client : Config → Action S N
  pub close_auth : A → Action S (Unit {0})
  pub close_notes : N → Action S (Unit {0})
  pub new_redis_cache : Config → Action S (Cache S)
  pub join_host_port : String → ℤ → String
  pub listen : String → Action S (Unit {0})
  pub shutdown : Action S (Unit {0})
  pub select : S → Wake × S

abbrev pub address_of : (String → ℤ → String) → Option HttpConfig → String
address_of join_host_port none = ""
address_of join_host_port (some c) = join_host_port c.host c.port

module _ {S A N : Type 0} (host : GatewayHost S A N) where
  abbrev pub gateway_hooks : A → N → Cache S → List (Hook S)
  gateway_hooks auth_client notes_client redis_cache =
      returning host.shutdown
      ∷ returning (host.close_auth auth_client)
      ∷ returning (host.close_notes notes_client)
      ∷ returning redis_cache.close
      ∷ []

  abbrev pub listening : String → A → N → Cache S → Result (Unit {0}) × S → List Err × S
  listening address auth_client notes_client redis_cache (err e, s) = (
    wrap ("bind http server on " +++ address) e ∷ [],
    dropping (host.close_auth auth_client)
        (dropping (host.close_notes notes_client) (dropping redis_cache.close s)),
  )
  listening address auth_client notes_client redis_cache (ok u, s) =
      wait host.select (gateway_hooks auth_client notes_client redis_cache) s

  abbrev pub with_cache : Config → A → N → Result (Cache S) × S → List Err × S
  with_cache cfg auth_client notes_client (err e, s) =
      (e ∷ [], dropping (host.close_auth auth_client) (dropping (host.close_notes notes_client) s))
  with_cache cfg auth_client notes_client (ok redis_cache, s) =
      let address = address_of host.join_host_port cfg.http in
      listening address auth_client notes_client redis_cache (host.listen address s)

  abbrev pub with_notes_client : Config → A → Result N × S → List Err × S
  with_notes_client cfg auth_client (err e, s) = (e ∷ [], dropping (host.close_auth auth_client) s)
  with_notes_client cfg auth_client (ok notes_client, s) =
      with_cache cfg auth_client notes_client (host.new_redis_cache cfg s)

  abbrev pub with_auth_client : Config → Result A × S → List Err × S
  with_auth_client cfg (err e, s) = (e ∷ [], s)
  with_auth_client cfg (ok auth_client, s) =
      with_notes_client cfg auth_client (host.new_notes_client cfg s)

  abbrev pub required : Config → Option Err → S → List Err × S
  required cfg (some e) s = (e ∷ [], s)
  required cfg none s = with_auth_client cfg (host.new_auth_client cfg s)

  abbrev pub gateway_configured : Result Config × S → List Err × S
  gateway_configured (err e, s) = (e ∷ [], s)
  gateway_configured (ok cfg, s) = required cfg (require_gateway_config cfg) s

  -- `StartGateway`
  unfoldable pub start_gateway : String → S → List Err × S
  start_gateway config_path s = gateway_configured (host.init_service config_path s)
