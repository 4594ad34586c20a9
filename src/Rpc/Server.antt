-- ===== src/Rpc/Server.antt =====
-- internal/adapters/grpc/server.go. google.golang.org/grpc and its health server are the parameter
-- `ServerLibrary`; the goroutine of `Start` is `serve`.
use Prim.Native.String.{◌++◌}
use notes_microservices.Prelude.{ℤ, String, Bool, false, Option, none, some, if◌then◌else◌}
use notes_microservices.Failure.{wrap}
use notes_microservices.Action.{Action, Result, ok, err}
use notes_microservices.Config.{Config, GrpcConfig}

-- `graceful_stop` is `GracefulStop` while the shutdown context lasts: whether it returned before that.
-- `stop` is `Stop` and the wait for `GracefulStop` that follows.
pub record ServerLibrary (S : Type 0) : Type 0 where
  pub join_host_port : String → ℤ → String
  pub listen : String → Action S (Unit {0})
  pub register_reflection : S → S
  pub serve : S → S
  pub set_not_serving : S → S
  pub graceful_stop : S → Bool × S
  pub stop : S → S

unfoldable pub reflection_enabled : Option Config → Bool
reflection_enabled none = false
reflection_enabled (some cfg) = elim cfg.grpc [ none ↦ false | some c ↦ c.reflection ]

module _ {S : Type 0} (lib : ServerLibrary S) where
  abbrev pub serving : Bool → String → Result (Unit {0}) × S → Result (Unit {0}) × S
  serving reflection address (err e, s) = (err (wrap ("start grpc server on " ++ address) e), s)
  serving reflection address (ok u, s) =
      (ok tt, lib.serve (if reflection then lib.register_reflection s else s))

  -- `Start` with the GRPC section of the configuration, which is there when it is called.
  unfoldable pub start : Config → GrpcConfig → Action S (Unit {0})
  unfolding reflection_enabled
  start cfg c s =
      let address = lib.join_host_port c.host c.port in
      serving (reflection_enabled (some cfg)) address (lib.listen address s)

  abbrev pub stopped : Bool × S → S
  stopped (graceful, s) = if graceful then s else lib.stop s

  -- `Stop`
  unfoldable pub stop : S → S
  stop s = stopped (lib.graceful_stop (lib.set_not_serving s))
