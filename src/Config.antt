-- ===== src/Config.antt =====
-- internal/config/config.go, with the sections that the modelled code reads. A pointer that may be nil
-- is an Option; a duration counts nanoseconds.
use notes_microservices.Prelude.{
  ℤ, String, Bool, not, Option, none, some, str_eq, trim_space, if◌then◌else◌,
}

pub record PostgresConfig : Type 0 where
  pub host : String
  pub user : String
  pub password : String
  pub database : String
  pub ssl_mode : String
  pub port : ℤ
  pub min_conn : ℤ
  pub max_conn : ℤ

pub record LoggingConfig : Type 0 where
  pub level : String
  pub mode : String

-- `timeout` is in seconds.
pub record ShutdownConfig : Type 0 where
  pub timeout : ℤ

pub record GrpcConfig : Type 0 where
  pub host : String
  pub port : ℤ
  pub reflection : Bool

pub record GrpcServiceConfig : Type 0 where
  pub host : String
  pub port : ℤ
  pub connect_timeout : ℤ

pub record GrpcClientConfig : Type 0 where
  pub auth_service : GrpcServiceConfig
  pub notes_service : GrpcServiceConfig
  pub request_timeout : ℤ
  pub insecure : Bool

pub record JwtConfig : Type 0 where
  pub access_secret_key : String
  pub refresh_secret_key : String
  pub secret_key : String
  pub access_token_ttl : String
  pub refresh_token_ttl : String
  pub bcrypt_cost : ℤ

pub record HttpConfig : Type 0 where
  pub host : String
  pub read_timeout : ℤ
  pub write_timeout : ℤ
  pub shutdown_timeout : ℤ
  pub port : ℤ
  pub trust_proxy : Bool
  pub trust_private_proxies : Bool

pub record RedisConfig : Type 0 where
  pub host : String
  pub password : String
  pub connect_timeout : ℤ
  pub read_timeout : ℤ
  pub write_timeout : ℤ
  pub idle_timeout : ℤ
  pub max_conn_lifetime : ℤ
  pub default_ttl : ℤ
  pub port : ℤ
  pub db : ℤ
  pub pool_size : ℤ
  pub min_idle : ℤ

pub record Config : Type 0 where
  pub postgres : Option PostgresConfig
  pub logging : Option LoggingConfig
  pub shutdown : Option ShutdownConfig
  pub grpc : Option GrpcConfig
  pub grpc_client : Option GrpcClientConfig
  pub jwt : Option JwtConfig
  pub http : Option HttpConfig
  pub redis : Option RedisConfig

-- `strings.TrimSpace(own)`, or where nothing is left of it, `strings.TrimSpace(shared)`.
abbrev first_secret : String → String → String
first_secret own shared =
    let secret = trim_space own in if not (str_eq secret "") then secret else trim_space shared

-- `ResolvedAccessSecret`
unfoldable pub resolved_access_secret : Option JwtConfig → String
resolved_access_secret none = ""
resolved_access_secret (some j) = first_secret j.access_secret_key j.secret_key

-- `ResolvedRefreshSecret`
unfoldable pub resolved_refresh_secret : Option JwtConfig → String
resolved_refresh_secret none = ""
resolved_refresh_secret (some j) = first_secret j.refresh_secret_key j.secret_key
