-- ===== src/Rpc/Connection.antt =====
-- Connections of the gateway: `newClientConn`, `waitUntilReady`, `unaryClientTimeoutInterceptor` and
-- `clientDialOptions` of internal/adapters/grpc/helpers.go, `NewNotesClient`, `NewAuthClient` and
-- `withClientTransport` of internal/adapters/grpc/clients.go. A connection of google.golang.org/grpc is
-- a `C`, a context an `X`; `join_host_port` is
-- `net.JoinHostPort` of a host and `strconv.Itoa(port)`.
pub mod Ready
mod Tests
use Prim.Native.String.{◌++◌ as ◌+++◌}
use notes_microservices.Prelude.{
  ℕ, suc, zero, ℤ, pos, negsuc, String, Bool, true, false, not, ◌&&◌, ◌||◌, Option, none, some,
  List, [], ◌∷◌, ◌++◌, is_nonpos, leb_ℤ, if◌then◌else◌,
}
use notes_microservices.Failure.{Err, sentinel, wrap, both, service_unavailable}
use notes_microservices.Action.{Action, Result, ok, err, context_of}
use notes_microservices.Config.{Config, GrpcClientConfig, GrpcServiceConfig}

-- `connectivity.State`
pub data Connectivity : Type 0 where
  idle connecting ready transient_failure shutdown : Connectivity

abbrev pub is_ready : Connectivity → Bool
is_ready ready = true
is_ready other = false

-- The options that are passed to `grpc.NewClient`.
pub data DialOption : Type 0 where
  insecure_transport tls_transport : DialOption
  unary_timeout : ℤ → DialOption

-- `dial` is `grpc.NewClient`, `ctx_err` is `ctx.Err()` and `with_timeout` is `context.WithTimeout`;
-- `quote` is the verb %q.
pub record GrpcLibrary (S C X : Type 0) : Type 0 where
  pub dial : String → List DialOption → Action S C
  pub connect : C → S → S
  pub state_of : C → S → Connectivity × S
  pub wait_for_state_change : X → C → Connectivity → S → Bool × S
  pub ctx_err : X → S → Err
  pub close : C → Action S (Unit {0})
  pub with_timeout : ℤ → S → X → X
  pub quote : String → String
  pub join_host_port : String → ℤ → String

abbrev pub with_client_transport : Option GrpcClientConfig → List DialOption
with_client_transport none = insecure_transport ∷ []
with_client_transport (some c) = (if c.insecure then insecure_transport else tls_transport) ∷ []

abbrev pub request_timeout_of : Option GrpcClientConfig → ℤ
request_timeout_of none = pos 0
request_timeout_of (some c) = c.request_timeout

unfoldable pub client_dial_options : Config → List DialOption
client_dial_options cfg =
    let opts = with_client_transport cfg.grpc_client in
    let request_timeout = request_timeout_of cfg.grpc_client in
    if not (is_nonpos request_timeout) then opts ++ unary_timeout request_timeout ∷ [] else opts

-- `until ctx s` is `time.Until` of the deadline of a context, if it has one.
unfoldable pub unary_client_timeout_interceptor :
    {S X R : Type 0} → (X → S → Option ℤ) → (ℤ → S → X → X) → ℤ → (X → S → R) → X → S → R
unary_client_timeout_interceptor until with_timeout timeout invoker ctx s =
    if is_nonpos timeout then invoker ctx s else elim (until ctx s) [
      | none ↦ invoker (with_timeout timeout s ctx) s
      | some remaining ↦
          if not (is_nonpos remaining) && leb_ℤ remaining timeout
          then invoker ctx s
          else invoker (with_timeout timeout s ctx) s
    ]

module _ {S C X : Type 0} (lib : GrpcLibrary S C X) where
  -- The loop on fuel, `none` where it runs out: the error that it returns, if any.
  unfoldable pub wait_until_ready : ℕ → X → C → S → Option (Option Err) × S
  wait_until_ready zero ctx conn s = (none, s)
  wait_until_ready (suc fuel) ctx conn s =
      let (state, s1) = lib.state_of conn s in
      let (changed, s2) = lib.wait_for_state_change ctx conn state s1 in
      let rest = wait_until_ready fuel ctx conn s2 in
      if is_ready state
      then (some none, s1)
      else if not changed
      then (some (some (both (sentinel service_unavailable) (lib.ctx_err ctx s2))), s2)
      else rest

  abbrev pub closed_unless_ready : C → Option (Option Err) × S → Option (Result C) × S
  closed_unless_ready conn (none, s) = (none, s)
  closed_unless_ready conn (some none, s) = (some (ok conn), s)
  closed_unless_ready conn (some (some e), s) =
      let (dropped, s') = lib.close conn s in (some (err e), s')

  abbrev pub dialed : ℕ → X → String → Result C × S → Option (Result C) × S
  dialed fuel ctx context (err e, s) = (some (err (wrap context e)), s)
  dialed fuel ctx context (ok conn, s) =
      closed_unless_ready conn (wait_until_ready fuel ctx conn (lib.connect conn s))

  unfoldable pub new_client_conn : ℕ → X → String → List DialOption → S → Option (Result C) × S
  unfolding wait_until_ready
  new_client_conn fuel ctx target opts s =
      dialed fuel ctx ("grpc dial " +++ lib.quote target) (lib.dial target opts s)

  abbrev dial_context : GrpcServiceConfig → X → S → X
  dial_context svc ctx s =
      if not (is_nonpos svc.connect_timeout)
      then lib.with_timeout svc.connect_timeout s ctx
      else ctx

  abbrev connected : String → Option (Result C) × S → Option (Result C) × S
  connected name (none, s) = (none, s)
  connected name (some r, s) = (some (context_of name r), s)

  -- What `NewNotesClient` and `NewAuthClient` share.
  abbrev service_conn :
      String → ℕ → X → Config → (GrpcClientConfig → GrpcServiceConfig) → S → Option (Result C) × S
  unfolding new_client_conn client_dial_options
  service_conn name fuel ctx cfg service s = elim cfg.grpc_client [
    | none ↦ (some (err (wrap name (sentinel service_unavailable))), s)
    | some c ↦
        (let svc = service c in
          connected ("connect " +++ name) (
            new_client_conn fuel (dial_context svc ctx s) (lib.join_host_port svc.host svc.port)
              (client_dial_options cfg) s))
  ]

  -- The connection of `NewNotesClient`.
  unfoldable pub new_notes_client : ℕ → X → Config → S → Option (Result C) × S
  unfolding service_conn
  new_notes_client fuel ctx cfg = service_conn "notes service" fuel ctx cfg (λ c. c.notes_service)

  -- The connection of `NewAuthClient`.
  unfoldable pub new_auth_client : ℕ → X → Config → S → Option (Result C) × S
  unfolding service_conn
  new_auth_client fuel ctx cfg = service_conn "auth service" fuel ctx cfg (λ c. c.auth_service)
