-- ===== src/Bootstrap/Run/Release.antt =====
-- What `StartGateway` opens and closes.
use notes_microservices.Prelude.{
  ℕ, ◌+◌, ◌≡◌, refl, ◌∙◌, ◌⊎◌, inl, inr, List, [], ◌∷◌, String, Option, none, some, arith, ◌==◌,
  if◌then◌else◌,
}
use notes_microservices.Failure.{Err}
use notes_microservices.Action.{Action, Result, ok, err}
use notes_microservices.Config.{Config}
use notes_microservices.Ports.{Cache}
use notes_microservices.Bootstrap.{require_gateway_config}
use notes_microservices.Bootstrap.Run.{
  GatewayHost, wait, gateway_hooks, dropping, listening, with_cache, with_notes_client,
  with_auth_client, required, gateway_configured, start_gateway, address_of,
}

pub data Part : Type 0 where
  pool server auth_conn notes_conn cache_client listener : Part

abbrev part_tag : Part → ℕ
part_tag pool = 0
part_tag server = 1
part_tag auth_conn = 2
part_tag notes_conn = 3
part_tag cache_client = 4
part_tag listener = 5

-- 1 for the part itself.
abbrev pub only : Part → Part → ℕ
only p q = if part_tag p == part_tag q then 1 else 0

module _ {ℓ} {A : Type ℓ} where
  -- What a call that opens a part adds.
  abbrev pub gained : Part → Part → Result A → ℕ
  gained p q (ok a) = only p q
  gained p q (err e) = 0

module _ {S : Type 0} (held : Part → S → ℕ) where
  -- A call opens a part if it succeeds, and nothing else.
  abbrev pub Opens {ℓ} : {A : Type ℓ} → Part → Action S A → Type 0
  Opens p m = (q : Part) (s : S) → held q ((m s).1) ≡ held q s + gained p q ((m s).0)

  -- A call opens a part if it succeeds, and may have opened it too where it fails.
  abbrev pub MayLeak : {A : Type 0} → Part → Action S A → Type 0
  MayLeak p m =
      (q : Part) (s : S)
      → (held q ((m s).1) ≡ held q s + gained p q ((m s).0))
        ⊎ (((e : Err) × ((m s).0 ≡ err e)) × (held q ((m s).1) ≡ held q s + only p q))

  -- A call closes a part that is open, and nothing else, whatever it returns.
  abbrev pub Closes : Part → (S → S) → Type 0
  Closes p f = (q : Part) (s : S) (n : ℕ) → held q s ≡ n + only p q → held q (f s) ≡ n

  abbrev pub Leaves : (S → S) → Type 0
  Leaves f = (q : Part) (s : S) → held q (f s) ≡ held q s

module _ {S A N : Type 0} (held : Part → S → ℕ) (host : GatewayHost S A N) where
  -- What the gateway's parts are relied on for.
  pub record GatewayIsTidy : Type 0 where
    pub init_leaves : (path : String) → Leaves held (λ s. (host.init_service path s).1)
    pub auth_opens : (cfg : Config) → Opens held auth_conn (host.new_auth_client cfg)
    pub notes_opens : (cfg : Config) → Opens held notes_conn (host.new_notes_client cfg)
    pub cache_opens : (cfg : Config) → MayLeak held cache_client (host.new_redis_cache cfg)
    pub listen_opens : (address : String) → Opens held listener (host.listen address)
    pub auth_closes : (a : A) → Closes held auth_conn (dropping (host.close_auth a))
    pub notes_closes : (b : N) → Closes held notes_conn (dropping (host.close_notes b))
    pub cache_closes :
        (cfg : Config) (s : S) (c : Cache S)
        → (host.new_redis_cache cfg s).0 ≡ ok c
        → Closes held cache_client (dropping c.close)
    pub shutdown_closes : Closes held listener (dropping host.shutdown)
    pub select_leaves : Leaves held (λ s. (host.select s).1)

  module _ (tidy : GatewayIsTidy) (q : Part) (n : ℕ) where
    -- The three closes that every late failure runs, newest first.
    closed-all :
        (a : A) (b : N) (f : S → S)
        → Closes held cache_client f
        → (s : S) → held q s ≡ n + only auth_conn q + only notes_conn q + only cache_client q
        → held q (dropping (host.close_auth a) (dropping (host.close_notes b) (f s))) ≡ n
    closed-all a b f closes s had =
        let s1 = f s in
        let one = closes q s (n + only auth_conn q + only notes_conn q) had in
        let s2 = dropping (host.close_notes b) s1 in
        let two = tidy.notes_closes b q s1 (n + only auth_conn q) one in
        tidy.auth_closes a q s2 n two

    closed-two :
        (a : A) (b : N) (s : S)
        → held q s ≡ n + only auth_conn q + only notes_conn q
        → held q (dropping (host.close_auth a) (dropping (host.close_notes b) s)) ≡ n
    closed-two a b s had =
        let s1 = dropping (host.close_notes b) s in
        let one = tidy.notes_closes b q s (n + only auth_conn q) had in
        tidy.auth_closes a q s1 n one

    -- The same two closes leave a client of the cache that is open.
    closed-leaky :
        (a : A) (b : N) (s : S)
        → held q s ≡ n + only cache_client q + only auth_conn q + only notes_conn q
        → held q (dropping (host.close_auth a) (dropping (host.close_notes b) s))
          ≡ n + only cache_client q
    closed-leaky a b s had =
        let s1 = dropping (host.close_notes b) s in
        let one = tidy.notes_closes b q s (n + only cache_client q + only auth_conn q) had in
        tidy.auth_closes a q s1 (n + only cache_client q) one

    -- The run of the server and the four hooks after it.
    served-releases :
        (a : A) (b : N) (c : Cache S)
        → Closes held cache_client (dropping c.close)
        → (s : S)
        → held q s
          ≡ n + only cache_client q + only notes_conn q + only auth_conn q + only listener q
        → held q ((wait host.select (gateway_hooks host a b c) s).1) ≡ n
    unfolding wait
    served-releases a b c closes s had =
        let s0 = (host.select s).1 in
        let ran = tidy.select_leaves q s in
        let s1 = dropping host.shutdown s0 in
        let one =
          tidy.shutdown_closes q s0 (n + only cache_client q + only notes_conn q + only auth_conn q)
            (ran ∙ had) in
        let s2 = dropping (host.close_auth a) s1 in
        let two = tidy.auth_closes a q s1 (n + only cache_client q + only notes_conn q) one in
        let s3 = dropping (host.close_notes b) s2 in
        let three = tidy.notes_closes b q s2 (n + only cache_client q) two in closes q s3 n three

    listening-releases :
        (address : String) (a : A) (b : N) (c : Cache S)
        → Closes held cache_client (dropping c.close)
        → (r : Result (Unit {0})) (s : S)
        → held q s
          ≡ n + only auth_conn q + only notes_conn q + only cache_client q + gained listener q r
        → held q ((listening host address a b c (r, s)).1) ≡ n
    listening-releases address a b c closes (err e) s had =
        closed-all a b (dropping c.close) closes s (omega (arith, had))
    listening-releases address a b c closes (ok u) s had =
        served-releases a b c closes s (omega (arith, had))

    -- How many of the part `q` are left open by a run that returned `errs`: none, or the client that
    -- NewRedisCache opened before it failed.
    abbrev LeavesOpen : List Err → S → Type 0
    LeavesOpen errs s =
        (held q s ≡ n)
        ⊎ ((held q s ≡ n + only cache_client q)
            × ((cfg : Config) × (t : S) × (e : Err) × ((host.new_redis_cache cfg t).0 ≡ err e)
                × (errs ≡ e ∷ [])))

    with_cache-ok :
        (cfg : Config) (a : A) (b : N) (c : Cache S) (s : S)
        → Closes held cache_client (dropping c.close)
        → held q s ≡ n + only auth_conn q + only notes_conn q + only cache_client q
        → held q ((with_cache host cfg a b (ok c, s)).1) ≡ n
    with_cache-ok cfg a b c s closes had =
        let address = address_of host.join_host_port cfg.http in
        let (r, s1) = host.listen address s in
        let listens = tidy.listen_opens address q s in
        listening-releases address a b c closes r s1 (omega arith)

    with_cache-leaves :
        (cfg : Config) (a : A) (b : N) (t : S) (r : Result (Cache S)) (s : S)
        → (host.new_redis_cache cfg t).0 ≡ r
        → (held q s ≡ n + only auth_conn q + only notes_conn q + gained cache_client q r)
          ⊎ (((e : Err) × (r ≡ err e))
              × (held q s ≡ n + only auth_conn q + only notes_conn q + only cache_client q))
        → let (errs, s') = with_cache host cfg a b (r, s) in LeavesOpen errs s'
    with_cache-leaves cfg a b t (err e) s made (inl had) =
        inl (closed-two a b s (omega (arith, had)))
    with_cache-leaves cfg a b t (err e) s made (inr (failed, had)) =
        inr (closed-leaky a b s (omega (arith, had)), (cfg, t, e, made, refl))
    with_cache-leaves cfg a b t (ok c) s made (inl had) =
        inl (with_cache-ok cfg a b c s (tidy.cache_closes cfg t c made) (omega (arith, had)))
    with_cache-leaves cfg a b t (ok c) s made (inr ((e, failed), had)) = cc

    with_notes_client-leaves :
        (cfg : Config) (a : A) (r : Result N) (s : S)
        → held q s ≡ n + only auth_conn q + gained notes_conn q r
        → let (errs, s') = with_notes_client host cfg a (r, s) in LeavesOpen errs s'
    with_notes_client-leaves cfg a (err e) s had =
        inl (tidy.auth_closes a q s n (omega (arith, had)))
    with_notes_client-leaves cfg a (ok b) s had =
        let (r, s1) = host.new_redis_cache cfg s in
        with_cache-leaves cfg a b s r s1 refl (elim (tidy.cache_opens cfg q s) [
          | inl opened ↦ inl (omega (arith, had, opened))
          | inr (failed, leaked) ↦ inr (failed, omega (arith, had, leaked))
        ])

    with_auth_client-leaves :
        (cfg : Config) (r : Result A) (s : S)
        → held q s ≡ n + gained auth_conn q r
        → let (errs, s') = with_auth_client host cfg (r, s) in LeavesOpen errs s'
    with_auth_client-leaves cfg (err e) s had = inl (omega (arith, had))
    with_auth_client-leaves cfg (ok a) s had =
        let (r, s1) = host.new_notes_client cfg s in
        let connects = tidy.notes_opens cfg q s in with_notes_client-leaves cfg a r s1 (omega arith)

    required-leaves :
        (cfg : Config) (refusal : Option Err) (s : S)
        → held q s ≡ n
        → let (errs, s') = required host cfg refusal s in LeavesOpen errs s'
    required-leaves cfg (some e) s had = inl had
    required-leaves cfg none s had =
        let (r, s1) = host.new_auth_client cfg s in
        let connects = tidy.auth_opens cfg q s in with_auth_client-leaves cfg r s1 (omega arith)

    gateway_configured-leaves :
        (r : Result Config) (s : S)
        → held q s ≡ n
        → let (errs, s') = gateway_configured host (r, s) in LeavesOpen errs s'
    gateway_configured-leaves (err e) s had = inl had
    gateway_configured-leaves (ok cfg) s had =
        required-leaves cfg (require_gateway_config cfg) s had

  -- However StartGateway ends, whether a step of it fails or the server ran and was shut down, every
  -- connection, cache client and listener that it opened has been closed, once, but for the client of
  -- the cache where the error that StartGateway returns is NewRedisCache's: that one may be left open.
  pub start_gateway-releases :
      GatewayIsTidy
      → (path : String) (q : Part) (s : S)
      → let (errs, s') = start_gateway host path s in
        (held q s' ≡ held q s)
        ⊎ ((held q s' ≡ held q s + only cache_client q)
            × ((cfg : Config) × (t : S) × (e : Err) × ((host.new_redis_cache cfg t).0 ≡ err e)
                × (errs ≡ e ∷ [])))
  unfolding start_gateway
  start_gateway-releases tidy path q s =
      let (r, s1) = host.init_service path s in
      gateway_configured-leaves tidy q (held q s) r s1 (tidy.init_leaves path q s)
