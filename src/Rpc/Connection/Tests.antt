-- ===== src/Rpc/Connection/Tests.antt =====
-- A connection whose state changes twice, on a state that counts changes left and open connections.
use notes_microservices.Prelude.{
  ℕ, ◌+◌, ◌-◌, ◌≡◌, refl, true, false, some, [], arith, ltb, ◌==◌, if◌then◌else◌,
}
use notes_microservices.Failure.{sentinel, deadline_exceeded}
use notes_microservices.Action.{Result, ok, handed}
use notes_microservices.Rpc.Connection.{GrpcLibrary, ready, connecting, new_client_conn}
use notes_microservices.Rpc.Connection.Ready.{IsPatient, Counts, new_client_conn-ends}

pub record Link : Type 0 where
  changes : ℕ
  held : ℕ

abbrev flaky : GrpcLibrary Link ℕ ℕ
flaky = record {
  dial = λ target opts s. (ok 0, record s { held = s.held + 1 });
  connect = λ conn s. s;
  state_of = λ conn s. (if s.changes == 1 then ready else connecting, s);
  wait_for_state_change = λ ctx conn state s.
      if ltb 0 s.changes then (true, record s { changes = s.changes - 1 }) else (false, s);
  ctx_err = λ ctx s. sentinel deadline_exceeded;
  close = λ conn s. (ok tt, record s { held = s.held - 1 });
  with_timeout = λ timeout s ctx. ctx;
  quote = λ t. t;
  join_host_port = λ host port. host;
}

flaky-IsPatient : IsPatient flaky 0 (λ s. s.changes)
flaky-IsPatient = record {
  dial_keeps = λ target opts s. omega arith;
  connect_keeps = λ conn s. omega arith;
  state_keeps = λ conn s. omega arith;
  wait_spends = λ conn state s moved. ground arith;
}

flaky-Counts : Counts flaky (λ s. s.held)
flaky-Counts = record {
  dial_opens = λ target opts s. refl;
  connect_keeps = λ conn s. refl;
  state_keeps = λ conn s. refl;
  wait_keeps = λ ctx conn state s. ground arith;
  close_closes = λ conn s n had. omega (arith, had);
}

abbrev fresh : Link
fresh = record { changes = 2; held = 0 }

new_client_conn-ends_example :
    (x : Result ℕ) × (s' : Link) × (new_client_conn flaky 3 0 "notes:50052" [] fresh ≡ (some x, s'))
    × (s'.held ≡ 0 + handed x)
new_client_conn-ends_example =
    new_client_conn-ends flaky 0 (λ s. s.changes) (λ s. s.held) flaky-IsPatient flaky-Counts 3
      "notes:50052" [] fresh (omega arith)
