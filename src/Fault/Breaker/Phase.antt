-- ===== src/Fault/Breaker/Phase.antt =====
-- What the breaker promises a client that makes one call after another, as a machine without
-- counters to reset, flags or late reports; and the proof that the code implements it.
use notes_microservices.Prelude.{
  ℕ, ◌+◌, ◌-◌, ◌≡◌, refl, ◌∙◌, Bool, false, Option, none, some, List, [], ◌∷◌, arith, leb,
  if◌then◌else◌,
}
use notes_microservices.Failure.{Err, sentinel, circuit_open}
use notes_microservices.Fault.Breaker.{
  CircuitState, CircuitBreaker, state_closed, state_open, state_half_open, is_ignored, allow,
  record_result,
}
use notes_microservices.Fault.Breaker.Schedule.{Call, execute_call, execute_all}

-- Serving, with the failures since the last success; tripped, since a time; or probing, with the
-- probes that have succeeded.
pub data Phase : Type 0 where
  serving tripped probing : ℕ → Phase

pub record Policy : Type 0 where
  pub timeout : ℕ
  pub error_threshold : ℕ
  pub success_threshold : ℕ
  pub is_failure : Option (Err → Bool)

-- The phase in which a call runs that starts now, if it is let in.
abbrev pub admit : Policy → ℕ → Phase → Option Phase
admit p now (serving k) = some (serving k)
admit p now (tripped since) = if leb (now - since) p.timeout then none else some (probing 0)
admit p now (probing k) = some (probing k)

abbrev pub after_failure : Policy → ℕ → Phase → Phase
after_failure p now (serving k) =
    if leb p.error_threshold (k + 1) then tripped now else serving (k + 1)
after_failure p now (tripped since) = tripped since
after_failure p now (probing k) = tripped now

abbrev pub after_success : Policy → Phase → Phase
after_success p (serving k) = serving 0
after_success p (tripped since) = tripped since
after_success p (probing k) = if leb p.success_threshold (k + 1) then serving 0 else probing (k + 1)

-- The phase after a call that ran in a phase and ended now.
abbrev pub settle : Policy → ℕ → Option Err → Phase → Phase
settle p now (some e) ph = if is_ignored p.is_failure e then ph else after_failure p now ph
settle p now none ph = after_success p ph

abbrev conclude_phase : Policy → Call → Phase → Option Phase → Option Err × Phase
conclude_phase p call ph none = (some (sentinel circuit_open), ph)
conclude_phase p call ph (some ph') = (call.outcome, settle p call.end call.outcome ph')

abbrev pub phase_call : Policy → Call → Phase → Option Err × Phase
phase_call p call ph = conclude_phase p call ph (admit p call.start ph)

abbrev pub phase_all : Policy → List Call → Phase → List (Option Err) × Phase
phase_all p [] ph = ([], ph)
phase_all p (call ∷ calls) ph =
    let (r, ph') = phase_call p call ph in let (rs, ph'') = phase_all p calls ph' in (r ∷ rs, ph'')

abbrev pub policy_of : CircuitBreaker → Policy
policy_of cb = record {
  timeout = cb.timeout;
  error_threshold = cb.error_threshold;
  success_threshold = cb.success_threshold;
  is_failure = cb.is_failure;
}

abbrev phase_in : CircuitState → CircuitBreaker → Phase
phase_in state_closed cb = serving cb.failures
phase_in state_open cb = tripped cb.last_change
phase_in state_half_open cb = probing cb.successes

abbrev pub phase_of : CircuitBreaker → Phase
phase_of cb = phase_in cb.state cb

-- No call is under way, and only a probing breaker has counted successes.
pub record IsQuiet (cb : CircuitBreaker) : Type 0 where
  pub no_probe : cb.half_open_in_flight ≡ false
  pub closed_clear : cb.state ≡ state_closed → cb.successes ≡ 0
  pub open_clear : cb.state ≡ state_open → cb.successes ≡ 0

module _ (call : Call) (cb : CircuitBreaker) (quiet : IsQuiet cb) where
  execute_call-result : (execute_call call cb).0 ≡ (phase_call (policy_of cb) call (phase_of cb)).0
  unfolding execute_call allow
  execute_call-result = ground arith

  execute_call-policy : policy_of (execute_call call cb).1 ≡ policy_of cb
  unfolding execute_call allow record_result
  execute_call-policy = ground arith

  execute_call-phase :
      phase_of (execute_call call cb).1 ≡ (phase_call (policy_of cb) call (phase_of cb)).1
  unfolding execute_call allow record_result
  execute_call-phase = ground arith

  execute_call-IsQuiet : IsQuiet (execute_call call cb).1
  unfolding execute_call allow record_result
  execute_call-IsQuiet = ground arith

execute_all-from :
    (calls : List Call) (cb : CircuitBreaker) {p : Policy} {ph : Phase}
    → policy_of cb ≡ p
    → phase_of cb ≡ ph
    → IsQuiet cb
    → let (rs, cb') = execute_all calls cb in
      let (rs', ph') = phase_all p calls ph in (rs ≡ rs') × (phase_of cb' ≡ ph') × IsQuiet cb'
unfolding execute_all
execute_all-from [] cb e f quiet = (refl, f, quiet)
execute_all-from (call ∷ calls) cb {p} {ph} e f quiet =
    let cb' = (execute_call call cb).1 in
    let same_policy : policy_of cb' ≡ p = execute_call-policy call cb quiet ∙ e in
    let same_phase : phase_of cb' ≡ (phase_call p call ph).1 =
      execute_call-phase call cb quiet ∙ (λ i. (phase_call (e i) call (f i)).1) in
    let same_result : (execute_call call cb).0 ≡ (phase_call p call ph).0 =
      execute_call-result call cb quiet ∙ (λ i. (phase_call (e i) call (f i)).0) in
    let (rs, end_phase, end_quiet) =
      execute_all-from calls cb' same_policy same_phase (execute_call-IsQuiet call cb quiet) in
    (λ i. same_result i ∷ rs i, end_phase, end_quiet)

-- For a client that makes one call after another, a quiet breaker returns what the machine of
-- phases returns, call by call, ends in the machine's phase, and is quiet again.
pub execute_all-refines :
    (calls : List Call) (cb : CircuitBreaker)
    → IsQuiet cb
    → let (rs, cb') = execute_all calls cb in
      let (rs', ph') = phase_all (policy_of cb) calls (phase_of cb) in
      (rs ≡ rs') × (phase_of cb' ≡ ph') × IsQuiet cb'
execute_all-refines calls cb quiet = execute_all-from calls cb refl refl quiet
