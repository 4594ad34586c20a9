-- ===== src/Bootstrap/Run/Services.antt =====
-- What `StartAuth` and `StartNotes` open and close.
use notes_microservices.Prelude.{
  ℕ, ◌+◌, ◌≡◌, ◌∙◌, String, Bool, true, false, Option, none, some, arith,
}
use notes_microservices.Failure.{Err}
use notes_microservices.Action.{Result, ok, err}
use notes_microservices.Config.{Config}
use notes_microservices.Bootstrap.{ensure_auth_jwt, ensure_notes_jwt}
use notes_microservices.Bootstrap.Run.{
  ServiceHost, wait, started, with_secrets, with_database, configured, start_auth, start_notes,
}
use notes_microservices.Bootstrap.Run.Release.{
  Part, pool, server, only, gained, Opens, Closes, Leaves,
}

module _ {S P : Type 0} (held : Part → S → ℕ) (host : ServiceHost S P) where
  -- What a service's parts are relied on for.
  pub record ServiceIsTidy : Type 0 where
    pub init_leaves : (path : String) → Leaves held (λ s. (host.init_service path s).1)
    pub pool_opens : (cfg : Config) (name : String) → Opens held pool (host.setup_postgres cfg name)
    pub pool_closes : (database : P) → Closes held pool (host.close database)
    pub server_opens : (cfg : Config) (database : P) → Opens held server (host.start cfg database)
    pub server_closes : Closes held server host.stop
    pub cleanup_leaves : (database : P) → Leaves held (host.cleanup database)
    pub select_leaves : Leaves held (λ s. (host.select s).1)

  module _ (tidy : ServiceIsTidy) (q : Part) (n : ℕ) where
    started-releases :
        (with_cleanup : Bool) (database : P) (r : Result (Unit {0})) (s : S)
        → held q s ≡ n + only pool q + gained server q r
        → held q ((started host with_cleanup database (r, s)).1) ≡ n
    unfolding wait
    started-releases with_cleanup database (err e) s had =
        tidy.pool_closes database q s n (omega (arith, had))
    started-releases true database (ok u) s had =
        let s0 = (host.select s).1 in
        let one = tidy.server_closes q s0 (n + only pool q) (tidy.select_leaves q s ∙ had) in
        let s1 = host.stop s0 in
        let s2 = host.cleanup database s1 in
        tidy.pool_closes database q s2 n (tidy.cleanup_leaves database q s1 ∙ one)
    started-releases false database (ok u) s had =
        let s0 = (host.select s).1 in
        let one = tidy.server_closes q s0 (n + only pool q) (tidy.select_leaves q s ∙ had) in
        tidy.pool_closes database q (host.stop s0) n one

    with_secrets-releases :
        (with_cleanup : Bool) (cfg : Config) (database : P) (refusal : Option Err) (s : S)
        → held q s ≡ n + only pool q
        → held q ((with_secrets host with_cleanup cfg database refusal s).1) ≡ n
    with_secrets-releases with_cleanup cfg database (some e) s had =
        tidy.pool_closes database q s n had
    with_secrets-releases with_cleanup cfg database none s had =
        let (r, s1) = host.start cfg database s in
        let opens = tidy.server_opens cfg database q s in
        started-releases with_cleanup database r s1 (omega arith)

    with_database-releases :
        (ensure : Config → Option Err) (with_cleanup : Bool) (cfg : Config) (r : Result P) (s : S)
        → held q s ≡ n + gained pool q r
        → held q ((with_database host ensure with_cleanup cfg (r, s)).1) ≡ n
    with_database-releases ensure with_cleanup cfg (err e) s had = omega (arith, had)
    with_database-releases ensure with_cleanup cfg (ok database) s had =
        with_secrets-releases with_cleanup cfg database (ensure cfg) s had

    configured-releases :
        (ensure : Config → Option Err) (with_cleanup : Bool) (name : String) (r : Result Config)
        (s : S)
        → held q s ≡ n
        → held q ((configured host ensure with_cleanup name (r, s)).1) ≡ n
    configured-releases ensure with_cleanup name (err e) s had = had
    configured-releases ensure with_cleanup name (ok cfg) s had =
        let (r, s1) = host.setup_postgres cfg name s in
        let opens = tidy.pool_opens cfg name q s in
        with_database-releases ensure with_cleanup cfg r s1 (omega arith)

  -- However StartAuth and StartNotes end, whether a step of them fails or the server ran and was shut
  -- down, the pool and the server that they opened have been closed, once.
  pub start_service-releases :
      ServiceIsTidy
      → (path : String) (q : Part) (s : S)
      → (held q ((start_auth host path s).1) ≡ held q s)
        × (held q ((start_notes host path s).1) ≡ held q s)
  unfolding start_auth start_notes
  start_service-releases tidy path q s =
      let (r, s1) = host.init_service path s in
      let had = tidy.init_leaves path q s in
      (
        configured-releases tidy q (held q s) ensure_auth_jwt true "auth" r s1 had,
        configured-releases tidy q (held q s) ensure_notes_jwt false "notes" r s1 had,
      )
