-- ===== src/Bootstrap.antt =====
-- internal/bootstrap/helpers.go without `Wait`: the configuration that a program starts from. An error
-- that is nil is `none`.
pub mod Checks
pub mod Run
mod Tests
use Prim.Native.String.{◌++◌}
use notes_microservices.Prelude.{
  ℕ, ◌&&◌, ℤ, String, len, Bool, true, false, not, ◌||◌, Option, none, some, str_eq, ltb,
  trim_space, if◌then◌else◌,
}
use notes_microservices.Failure.{Err, sentinel, wrap, detail, invalid_config}
use notes_microservices.Action.{
  Action, Result, ok, err, context_of, lift, fail, pure, ◌>>=◌, ◌>>◌, within,
}
use notes_microservices.Config.{
  Config, PostgresConfig, JwtConfig, resolved_access_secret, resolved_refresh_secret,
}
use notes_microservices.Logger.{Zap, new_logger, development, production, set_global_logger}
use notes_microservices.Postgres.Connection.{PoolLibrary, MigrateLibrary, migrate, new_database}

abbrev pub is_nil {ℓ} : {A : Type ℓ} → Option A → Bool
is_nil none = true
is_nil (some a) = false

abbrev pub invalid : String → Err
invalid message = detail (sentinel invalid_config) message

-- `if wrong { return fmt.Errorf("%w: message", errInvalidConfig) }`
abbrev pub refuse_if : Bool → String → Option Err → Option Err
refuse_if wrong message rest = if wrong then some (invalid message) else rest

abbrev pub min_jwt_secret_length : ℕ
min_jwt_secret_length = 32

abbrev blank_password : Option PostgresConfig → Bool
blank_password none = true
blank_password (some pg) = str_eq (trim_space pg.password) ""

unfoldable pub ensure_postgres_and_grpc : Config → Option Err
ensure_postgres_and_grpc cfg = refuse_if (is_nil cfg.postgres) "postgres section is required" (
    refuse_if (is_nil cfg.grpc) "grpc section is required" (
      refuse_if (is_nil cfg.shutdown) "shutdown section is required" (
        refuse_if (blank_password cfg.postgres)
          "postgres password is required (set POSTGRES_PASSWORD)" none)))

unfoldable pub ensure_auth_jwt : Config → Option Err
ensure_auth_jwt cfg =
    let access = resolved_access_secret cfg.jwt in
    let refresh = resolved_refresh_secret cfg.jwt in
    refuse_if (is_nil cfg.jwt) "jwt section is required" (
      refuse_if (str_eq access "") "jwt access secret is required (set JWT_ACCESS_SECRET_KEY)" (
        refuse_if (str_eq refresh "") "jwt refresh secret is required (set JWT_REFRESH_SECRET_KEY)"
          (refuse_if
            (ltb (len access) min_jwt_secret_length || ltb (len refresh) min_jwt_secret_length)
            "jwt secrets must be at least 32 bytes"
            (refuse_if (str_eq access refresh) "jwt access and refresh secrets must differ" none))))

unfoldable pub ensure_notes_jwt : Config → Option Err
ensure_notes_jwt cfg =
    let access = resolved_access_secret cfg.jwt in
    refuse_if (is_nil cfg.jwt) "jwt section is required" (
      refuse_if (str_eq access "") "jwt access secret is required (set JWT_ACCESS_SECRET_KEY)" (
        refuse_if (ltb (len access) min_jwt_secret_length)
          "jwt access secret must be at least 32 bytes" none))

unfoldable pub require_gateway_config : Config → Option Err
require_gateway_config cfg = refuse_if (is_nil cfg.grpc_client) "grpc client section is required" (
    refuse_if (is_nil cfg.redis) "redis section is required" (
      refuse_if (is_nil cfg.http) "http section is required"
        (refuse_if (is_nil cfg.shutdown) "shutdown section is required" none)))

-- `time.ParseDuration` is `parse`.
unfoldable pub parse_duration_or_default : (String → Result ℤ) → String → ℤ → ℤ
parse_duration_or_default parse raw fallback = elim (parse raw) [
  | ok parsed ↦ parsed
  | err e ↦ fallback
]

abbrev pub migration_source_url : String → String
migration_source_url service = "file://migrations/" ++ service

-- `userinfo` is `url.UserPassword(…).String()`.
pub record UrlLibrary : Type 0 where
  pub join_host_port : String → ℤ → String
  pub userinfo : String → String → String
  pub path_escape : String → String
  pub query_escape : String → String

unfoldable pub postgres_dsn : UrlLibrary → PostgresConfig → String
postgres_dsn url pg =
    let ssl_mode = if str_eq pg.ssl_mode "" then "disable" else pg.ssl_mode in
    "postgres://"
    ++ url.userinfo pg.user pg.password
    ++ "@"
    ++ url.join_host_port pg.host pg.port
    ++ "/"
    ++ url.path_escape pg.database
    ++ "?sslmode="
    ++ url.query_escape ssl_mode

-- cleanenv on the files and the environment of the state; `is_file` is that `os.Stat` succeeds and
-- finds no directory. `pointer` and `set_pointer` are the global logger.
pub record System (S Z : Type 0) : Type 0 where
  pub is_file : String → S → Bool
  pub read_config : String → Config → Action S Config
  pub read_env : Config → Action S Config
  pub equal_fold : String → String → Bool
  pub quote : String → String
  pub pointer : S → Option Z
  pub set_pointer : Option Z → S → S

-- `new(config.Config)`
abbrev pub empty_config : Config
empty_config = record {
  postgres = none;
  logging = none;
  shutdown = none;
  grpc = none;
  grpc_client = none;
  jwt = none;
  http = none;
  redis = none;
}

module _ {S Z : Type 0} (sys : System S Z) where
  abbrev from_file : String → Action S Config
  from_file config_path s =
      if not (str_eq config_path "") && sys.is_file config_path s
      then within ("load config " ++ sys.quote config_path)
          (sys.read_config config_path empty_config) s
      else (ok empty_config, s)

  unfoldable pub load : String → Action S Config
  load config_path =
      from_file config_path >>= λ cfg. within "load config from env" (sys.read_env cfg)

  unfoldable pub init_logger : Zap Z → Config → Result Z
  init_logger zap cfg = elim cfg.logging [
    | none ↦ err (invalid "logging section is missing")
    | some logging ↦
        (let log_env =
            if sys.equal_fold logging.mode "production" then production else development in
          context_of "init logger" (new_logger zap log_env logging.level))
  ]

  abbrev with_logger : Result Z → Config → Action S Config
  with_logger (err e) cfg s = (err e, s)
  with_logger (ok core) cfg s =
      (ok cfg, sys.set_pointer (set_global_logger (some (some core)) (sys.pointer s)) s)

  unfoldable pub init_service : Zap Z → String → Action S Config
  unfolding load init_logger
  init_service zap config_path = load config_path >>= λ cfg. with_logger (init_logger zap cfg) cfg

module _ {S P M : Type 0} (url : UrlLibrary) (quote : String → String) (pools : PoolLibrary S P)
    (migrations : MigrateLibrary S M) where
  -- Without a Postgres section `ensure_postgres_and_grpc` has refused the configuration.
  abbrev pub checked_postgres : Option Err → Option PostgresConfig → String → Action S P
  checked_postgres (some e) pg service_name s = (err e, s)
  checked_postgres none none service_name s = (err (invalid "postgres section is required"), s)
  checked_postgres none (some pg) service_name s =
      let dsn = postgres_dsn url pg in
      (migrate migrations quote dsn (migration_source_url service_name)
          >> new_database pools dsn pg.min_conn pg.max_conn)
        s

  unfoldable pub setup_postgres : Config → String → Action S P
  setup_postgres cfg service_name =
      checked_postgres (ensure_postgres_and_grpc cfg) cfg.postgres service_name
