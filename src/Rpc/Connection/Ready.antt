-- ===== src/Rpc/Connection/Ready.antt =====
-- How `waitUntilReady` and `newClientConn` end, and what stays open.
use Prim.Native.String.{◌++◌}
use notes_microservices.Prelude.{
  ◌&&◌, Option-cases, ℕ, zero, suc, ◌+◌, ◌≤◌, ◌<◌, ◌≡◌, refl, ℤ, String, true, false, not, Option,
  none, some, List, arith, inl, inr, Bool-cases, is_nonpos, leb_ℤ,
}
use notes_microservices.Failure.{Err, wrap, both, sentinel, service_unavailable}
use notes_microservices.Action.{Result, ok, err, handed}
use notes_microservices.Rpc.Connection.{
  GrpcLibrary, Connectivity, is_ready, DialOption, wait_until_ready, new_client_conn,
  closed_unless_ready, dialed, unary_client_timeout_interceptor,
}

-- `changes s` bounds how often the state of a connection still changes before the context ends:
-- WaitForStateChange returns false once the context has ended.
pub record IsPatient {S C X : Type 0} (lib : GrpcLibrary S C X) (ctx : X) (changes : S → ℕ)
    : Type 0 where
  pub dial_keeps :
      (target : String) (opts : List DialOption) (s : S)
      → changes ((lib.dial target opts s).1) ≤ changes s
  pub connect_keeps : (conn : C) (s : S) → changes (lib.connect conn s) ≤ changes s
  pub state_keeps : (conn : C) (s : S) → changes ((lib.state_of conn s).1) ≤ changes s
  pub wait_spends :
      (conn : C) (state : Connectivity) (s : S)
      → (lib.wait_for_state_change ctx conn state s).0 ≡ true
      → changes ((lib.wait_for_state_change ctx conn state s).1) < changes s

-- `held s` counts the connections that are open: NewClient opens one, Close closes one.
pub record Counts {S C X : Type 0} (lib : GrpcLibrary S C X) (held : S → ℕ) : Type 0 where
  pub dial_opens :
      (target : String) (opts : List DialOption) (s : S)
      → held ((lib.dial target opts s).1) ≡ held s + handed ((lib.dial target opts s).0)
  pub connect_keeps : (conn : C) (s : S) → held (lib.connect conn s) ≡ held s
  pub state_keeps : (conn : C) (s : S) → held ((lib.state_of conn s).1) ≡ held s
  pub wait_keeps :
      (ctx : X) (conn : C) (state : Connectivity) (s : S)
      → held ((lib.wait_for_state_change ctx conn state s).1) ≡ held s
  pub close_closes : (conn : C) (s : S) (n : ℕ) → held s ≡ suc n → held ((lib.close conn s).1) ≡ n

module _ {S C X : Type 0} (lib : GrpcLibrary S C X) (ctx : X) where
  wait_until_ready-ends :
      (changes : S → ℕ)
      → IsPatient lib ctx changes
      → (fuel : ℕ) (conn : C) (s : S) → changes s < fuel
      → (r : Option Err) × ((wait_until_ready lib fuel ctx conn s).0 ≡ some r)
  unfolding wait_until_ready
  wait_until_ready-ends changes patient zero conn s enough = (none, ground arith)
  wait_until_ready-ends changes patient (suc fuel) conn s enough =
      let (state, s1) = lib.state_of conn s in
      let (changed, s2) = lib.wait_for_state_change ctx conn state s1 in
      let keeps = patient.state_keeps conn s in
      elim (Bool-cases (is_ready state)) [
        | inl up ↦ (none, ground arith)
        | inr waiting ↦ elim (Bool-cases changed) [
          | inl moved ↦
              (let spends = patient.wait_spends conn state s1 moved in
                let (r, rest) = wait_until_ready-ends changes patient fuel conn s2 (omega arith) in
                (r, ground arith))
          | inr ended ↦
              (some (both (sentinel service_unavailable) (lib.ctx_err ctx s2)), ground arith)
        ]
      ]

  wait_until_ready-held :
      (held : S → ℕ)
      → Counts lib held
      → (fuel : ℕ) (conn : C) (s : S) → held ((wait_until_ready lib fuel ctx conn s).1) ≡ held s
  unfolding wait_until_ready
  wait_until_ready-held held counts zero conn s = refl
  wait_until_ready-held held counts (suc fuel) conn s =
      let (state, s1) = lib.state_of conn s in
      let (changed, s2) = lib.wait_for_state_change ctx conn state s1 in
      let first = counts.state_keeps conn s in
      let second = counts.wait_keeps ctx conn state s1 in
      let rest = wait_until_ready-held held counts fuel conn s2 in ground arith

  closed_unless_ready-counted :
      (held : S → ℕ)
      → Counts lib held
      → (conn : C) (n : ℕ) (o : Option (Option Err)) (r : Option Err) (s : S) → o ≡ some r
      → held s ≡ suc n
      → (x : Result C) × (s' : S) × (closed_unless_ready lib conn (o, s) ≡ (some x, s'))
        × (held s' ≡ n + handed x)
  closed_unless_ready-counted held counts conn n none r s ended had =
      (ok conn, s, ground arith, ground arith)
  closed_unless_ready-counted held counts conn n (some none) r s ended had =
      (ok conn, s, refl, omega arith)
  closed_unless_ready-counted held counts conn n (some (some e)) r s ended had =
      let closed = counts.close_closes conn s n had in
      (err e, (lib.close conn s).1, refl, omega arith)

  dialed-counted :
      (changes held : S → ℕ)
      → IsPatient lib ctx changes
      → Counts lib held
      → (fuel n : ℕ) (context : String) (d : Result C) (s : S) → changes s < fuel
      → held s ≡ n + handed d
      → (x : Result C) × (s' : S) × (dialed lib fuel ctx context (d, s) ≡ (some x, s'))
        × (held s' ≡ n + handed x)
  dialed-counted changes held patient counts fuel n context (err e) s enough had =
      (err (wrap context e), s, refl, had)
  dialed-counted changes held patient counts fuel n context (ok conn) s enough had =
      let s1 = lib.connect conn s in
      let fewer = patient.connect_keeps conn s in
      let same = counts.connect_keeps conn s in
      let (r, ends) = wait_until_ready-ends changes patient fuel conn s1 (omega arith) in
      let kept = wait_until_ready-held held counts fuel conn s1 in
      let (o, s2) = wait_until_ready lib fuel ctx conn s1 in
      closed_unless_ready-counted held counts conn n o r s2 ends (omega arith)

  -- newClientConn comes to an end, given fuel for the state changes that may still happen before its
  -- context ends: with a connection, which is then the only one opened, or with an error, and then
  -- the connection it opened has been closed.
  pub new_client_conn-ends :
      (changes held : S → ℕ)
      → IsPatient lib ctx changes
      → Counts lib held
      → (fuel : ℕ) (target : String) (opts : List DialOption) (s : S) → changes s < fuel
      → (x : Result C) × (s' : S) × (new_client_conn lib fuel ctx target opts s ≡ (some x, s'))
        × (held s' ≡ held s + handed x)
  unfolding new_client_conn
  new_client_conn-ends changes held patient counts fuel target opts s enough =
      let fewer = patient.dial_keeps target opts s in
      let (d, s1) = lib.dial target opts s in
      dialed-counted changes held patient counts fuel (held s) ("grpc dial " ++ lib.quote target) d
        s1 (omega arith) (counts.dial_opens target opts s)

-- A call through the interceptor with a positive timeout runs in a context that has at most that
-- much time left.
pub unary_client_timeout-bounds :
    {S X : Type 0} (until : X → S → Option ℤ) (with_timeout : ℤ → S → X → X) (timeout : ℤ) (ctx : X)
    (s : S)
    → ((c : X)
        → (left : ℤ) × (until (with_timeout timeout s c) s ≡ some left)
          × (leb_ℤ left timeout ≡ true))
    → is_nonpos timeout ≡ false
    → (left : ℤ) × (unary_client_timeout_interceptor until with_timeout timeout until ctx s
        ≡ some left)
      × (leb_ℤ left timeout ≡ true)
unfolding unary_client_timeout_interceptor
unary_client_timeout-bounds until with_timeout timeout ctx s cut positive =
    elim (Option-cases (until ctx s)) [
      | inl endless ↦ (let (left, is_left, within) = cut ctx in (left, ground arith, within))
      | inr (remaining, there) ↦
          elim (Bool-cases (not (is_nonpos remaining) && leb_ℤ remaining timeout)) [
            | inl short ↦ (remaining, ground arith, ground arith)
            | inr long ↦ (let (left, is_left, within) = cut ctx in (left, ground arith, within))
          ]
    ]
