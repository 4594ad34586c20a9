-- ===== src/Postgres/Connection/Pool.antt =====
-- The pools that `NewDatabase` opens.
use notes_microservices.Prelude.{ℕ, suc, ◌+◌, ◌≡◌, ℤ, String, arith}
use notes_microservices.Action.{Result, ok, err, handed}
use notes_microservices.Postgres.Connection.{
  PoolConfig, PoolLibrary, pool_config, pinged, opened, connected, new_database,
}

-- `held s` counts the pools that are open: NewWithConfig opens one, Close closes one.
pub record Counts {S P : Type 0} (lib : PoolLibrary S P) (held : S → ℕ) : Type 0 where
  pub new_opens :
      (cfg : PoolConfig) (s : S)
      → held ((lib.new_with_config cfg s).1) ≡ held s + handed ((lib.new_with_config cfg s).0)
  pub ping_keeps : (pool : P) (s : S) → held ((lib.ping pool s).1) ≡ held s
  pub close_closes : (pool : P) (s : S) (n : ℕ) → held s ≡ suc n → held (lib.close pool s) ≡ n

module _ {S P : Type 0} (lib : PoolLibrary S P) (held : S → ℕ) where
  pinged-counted :
      Counts lib held
      → (n : ℕ) (pool : P) (r : Result (Unit {0})) (s : S) → held s ≡ suc n
      → held ((pinged lib pool (r, s)).1) ≡ n + handed ((pinged lib pool (r, s)).0)
  pinged-counted counts n pool (ok u) s had = omega (arith, had)
  pinged-counted counts n pool (err e) s had = omega (arith, counts.close_closes pool s n had)

  opened-counted :
      Counts lib held
      → (n : ℕ) (d : Result P) (s : S) → held s ≡ n + handed d
      → held ((opened lib (d, s)).1) ≡ n + handed ((opened lib (d, s)).0)
  opened-counted counts n (err e) s had = had
  opened-counted counts n (ok pool) s had =
      let keeps = counts.ping_keeps pool s in
      let (r, s1) = lib.ping pool s in pinged-counted counts n pool r s1 (omega arith)

  connected-counted :
      Counts lib held
      → (min_conn max_conn : ℤ) (cfg : Result PoolConfig) (s : S)
      → held ((connected lib min_conn max_conn cfg s).1)
        ≡ held s + handed ((connected lib min_conn max_conn cfg s).0)
  connected-counted counts min_conn max_conn (err e) s = omega arith
  connected-counted counts min_conn max_conn (ok cfg) s =
      let c = pool_config min_conn max_conn cfg in
      let (d, s1) = lib.new_with_config c s in
      opened-counted counts (held s) d s1 (counts.new_opens c s)

  -- NewDatabase leaves one pool more open if it returns a database, and none if it returns an error.
  pub new_database-counted :
      Counts lib held
      → (dsn : String) (min_conn max_conn : ℤ) (s : S)
      → held ((new_database lib dsn min_conn max_conn s).1)
        ≡ held s + handed ((new_database lib dsn min_conn max_conn s).0)
  unfolding new_database
  new_database-counted counts dsn min_conn max_conn s =
      connected-counted counts min_conn max_conn (lib.parse_config dsn) s
