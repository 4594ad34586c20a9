-- ===== src/Bootstrap/Run/Hooks.antt =====
-- The hooks of `Wait`.
use notes_microservices.Prelude.{◌≡◌, refl, sym, ap, ◌∙◌, Option, none, some, List, [], ◌∷◌, ◌++◌}
use mathlib.Core.List.{append-nil}
use notes_microservices.Failure.{Err}
use notes_microservices.Bootstrap.Run.{Hook, Wake, run_error, join, run_hooks, wait}

join-append :
    (errs rest : List Err) (e : Option Err) → join errs e ++ rest ≡ errs ++ (join [] e ++ rest)
join-append [] rest e = refl
join-append (x ∷ errs) rest none = refl
join-append (x ∷ errs) rest (some e) = ap (λ l. x ∷ l) (join-append errs rest (some e))

module _ {S : Type 0} where
  -- The state after all hooks.
  abbrev pub after : List (Hook S) → S → S
  after [] s = s
  after (hook ∷ hooks) s = after hooks ((hook s).1)

  -- The errors that the hooks return, in order.
  abbrev pub errors : List (Hook S) → S → List Err
  errors [] s = []
  errors (hook ∷ hooks) s = join [] ((hook s).0) ++ errors hooks ((hook s).1)

  run_hooks-all :
      (hooks : List (Hook S)) (errs : List Err) (s : S)
      → ((run_hooks hooks errs s).0 ≡ errs ++ errors hooks s)
        × ((run_hooks hooks errs s).1 ≡ after hooks s)
  run_hooks-all [] errs s = (sym (append-nil errs), refl)
  run_hooks-all (hook ∷ hooks) errs s =
      let (e, s1) = hook s in
      let (same, ended) = run_hooks-all hooks (join errs e) s1 in
      (same ∙ join-append errs (errors hooks s1) e, ended)

  -- Wait runs every hook once, in the given order, whatever the earlier ones return; what it returns
  -- is the error of the server, if that ended the wait with one, and then the errors of the hooks in
  -- their order.
  pub wait-all :
      (select : S → Wake × S) (hooks : List (Hook S)) (s : S)
      → let (wake, s') = select s in
        ((wait select hooks s).0 ≡ run_error wake ++ errors hooks s')
        × ((wait select hooks s).1 ≡ after hooks s')
  unfolding wait
  wait-all select hooks s =
      let (wake, s') = select s in
      let (same, ended) = run_hooks-all hooks [] s' in (ap (λ l. run_error wake ++ l) same, ended)
