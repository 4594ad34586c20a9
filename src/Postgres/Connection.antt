-- ===== src/Postgres/Connection.antt =====
-- internal/adapters/postgres/database.go. A pool of github.com/jackc/pgx is a `P`, a migrator of
-- golang-migrate an `M`; `quote` is the verb %q.
pub mod Pool
use Prim.Native.String.{◌++◌}
use notes_microservices.Prelude.{
  ℕ, ℤ, pos, String, Bool, not, ◌&&◌, Option, none, some, is_nonpos, leb_ℤ, if◌then◌else◌,
}
use notes_microservices.Failure.{Err, wrap, is_foreign, no_change}
use notes_microservices.Action.{Action, Result, ok, err, context_of}

-- What is set of a `pgxpool.Config`.
pub record PoolConfig : Type 0 where
  pub min_conns : ℤ
  pub max_conns : ℤ

pub record PoolLibrary (S P : Type 0) : Type 0 where
  pub parse_config : String → Result PoolConfig
  pub new_with_config : PoolConfig → Action S P
  pub ping : P → Action S (Unit {0})
  pub close : P → S → S

pub record MigrateLibrary (S M : Type 0) : Type 0 where
  pub new_migrator : String → String → Action S M
  pub up : M → Action S (Unit {0})
  pub close : M → S → S

abbrev pub max_int32 : ℤ
max_int32 = pos 2147483647

-- `value`, where it is positive and an int32.
abbrev pub int32_or : ℤ → ℤ → ℤ
int32_or old value = if not (is_nonpos value) && leb_ℤ value max_int32 then value else old

abbrev pub pool_config : ℤ → ℤ → PoolConfig → PoolConfig
pool_config min_conn max_conn cfg = record {
  min_conns = int32_or cfg.min_conns min_conn;
  max_conns = int32_or cfg.max_conns max_conn;
}

module _ {S P : Type 0} (lib : PoolLibrary S P) where
  abbrev pub pinged : P → Result (Unit {0}) × S → Result P × S
  pinged pool (ok u, s) = (ok pool, s)
  pinged pool (err e, s) = (err (wrap "postgres: ping" e), lib.close pool s)

  abbrev pub opened : Result P × S → Result P × S
  opened (err e, s) = (err (wrap "postgres: connect" e), s)
  opened (ok pool, s) = pinged pool (lib.ping pool s)

  abbrev pub connected : ℤ → ℤ → Result PoolConfig → Action S P
  connected min_conn max_conn (err e) s = (err (wrap "postgres: parse config" e), s)
  connected min_conn max_conn (ok cfg) s =
      opened (lib.new_with_config (pool_config min_conn max_conn cfg) s)

  -- `NewDatabase`; a `Database` is its pool.
  unfoldable pub new_database : String → ℤ → ℤ → Action S P
  new_database dsn min_conn max_conn = connected min_conn max_conn (lib.parse_config dsn)

module _ {S M : Type 0} (lib : MigrateLibrary S M) where
  abbrev applied : Result (Unit {0}) → Result (Unit {0})
  applied (ok u) = ok tt
  applied (err e) =
      if is_foreign e no_change then ok tt else err (wrap "postgres: apply migrations" e)

  abbrev migrated : (String → String) → String → Result M × S → Result (Unit {0}) × S
  migrated quote path (err e, s) =
      (err (wrap ("postgres: init migrations from " ++ quote path) e), s)
  migrated quote path (ok migrator, s) =
      let (r, s') = lib.up migrator s in (applied r, lib.close migrator s')

  -- `Migrate`
  unfoldable pub migrate : (String → String) → String → String → Action S (Unit {0})
  migrate quote dsn migrations_path s =
      migrated quote migrations_path (lib.new_migrator migrations_path dsn s)
