-- ===== src/Redis.antt =====
-- internal/adapters/redis/cache.go. The client of github.com/redis/go-redis is the parameter
-- `RedisLibrary`; `net.JoinHostPort` and `strconv.Itoa` are `join_host_port`.
pub mod Keys
mod Tests
use notes_microservices.Prelude.{
  ℤ, pos, String, Bool, Option, none, some, str_eq, is_nonpos, trim_space, if◌then◌else◌, ◌*◌,
}
use notes_microservices.Failure.{Err, sentinel, is_foreign, redis_nil, redis_config_required}
use notes_microservices.Action.{Action, Result, ok, err, context_of, within, pure, ◌>>◌}
use notes_microservices.Config.{Config, RedisConfig}
use notes_microservices.Ports.{Cache}

abbrev pub default_host : String
default_host = "localhost"

abbrev pub default_port : ℤ
default_port = pos 6379

-- 15 minutes, in nanoseconds.
abbrev pub default_cache_ttl : ℤ
default_cache_ttl = pos (900 * 1000000000)

-- The fields of `redis.Options` that are set.
pub record Options : Type 0 where
  pub addr : String
  pub password : String
  pub db : ℤ
  pub dial_timeout : ℤ
  pub read_timeout : ℤ
  pub write_timeout : ℤ
  pub pool_size : ℤ
  pub min_idle_conns : ℤ
  pub conn_max_idle_time : ℤ
  pub conn_max_lifetime : ℤ

-- The commands of a client; `Err()` of a reply is the error of the action.
pub record Client (S : Type 0) : Type 0 where
  pub get : String → Action S String
  pub set : String → String → ℤ → Action S (Unit {0})
  pub del : String → Action S (Unit {0})
  pub ping : Action S (Unit {0})
  pub close : Action S (Unit {0})

-- `Cache`: the client and the default time to live.
pub record RedisCache (S : Type 0) : Type 0 where
  pub client : Client S
  pub default_ttl : ℤ

-- `value`, or the default where it is not positive.
abbrev pub positive_or : ℤ → ℤ → ℤ
positive_or default value = if is_nonpos value then default else value

module _ (join_host_port : String → ℤ → String) where
  unfoldable pub options_of : RedisConfig → Options
  options_of c =
      let host = trim_space c.host in
      let host' = if str_eq host "" then default_host else host in
      record {
        addr = join_host_port host' (positive_or default_port c.port);
        password = c.password;
        db = c.db;
        dial_timeout = c.connect_timeout;
        read_timeout = c.read_timeout;
        write_timeout = c.write_timeout;
        pool_size = c.pool_size;
        min_idle_conns = c.min_idle;
        conn_max_idle_time = c.idle_timeout;
        conn_max_lifetime = c.max_conn_lifetime;
      }

-- A key that the server does not have reads as "".
abbrev pub value_of : Result String → Result String
value_of (ok value) = ok value
value_of (err e) = if is_foreign e redis_nil then ok "" else context_of "redis: get" (err e)

module _ {S : Type 0} where
  -- `Get`
  unfoldable pub get : RedisCache S → String → Action S String
  get c key s = let (r, s') = c.client.get key s in (value_of r, s')

  -- `Set`
  unfoldable pub set : RedisCache S → String → String → ℤ → Action S (Unit {0})
  set c key value ttl = within "redis: set" (c.client.set key value (positive_or c.default_ttl ttl))

  -- The methods of `*Cache`.
  unfoldable pub cache : RedisCache S → Cache S
  unfolding get set
  cache c = record {
    set = set c;
    get = get c;
    delete = λ key. within "redis: delete" (c.client.del key);
    ping = within "redis: ping" c.client.ping;
    close = within "redis: close" c.client.close;
  }

  -- `NewRedisCache`; `new_client` is `redis.NewClient`.
  unfoldable pub new_redis_cache :
      (String → ℤ → String) → (Options → Client S) → Option Config → Action S (RedisCache S)
  unfolding options_of
  new_redis_cache join_host_port new_client none s = (err (sentinel redis_config_required), s)
  new_redis_cache join_host_port new_client (some cfg) s = elim cfg.redis [
    | none ↦ (err (sentinel redis_config_required), s)
    | some c ↦
        (let client = new_client (options_of join_host_port c) in
          (within "redis: connect" client.ping
              >> pure (record {
                client = client;
                default_ttl = positive_or default_cache_ttl c.default_ttl;
              }))
            s)
  ]
