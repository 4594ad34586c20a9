-- ===== src/Action.antt =====
-- Calls that read and write a state and may fail: Go's `(value, error)` results, the state passed on.
-- What was written before an error stays written.
pub mod Laws
use notes_microservices.Prelude.{ℕ, String}
use notes_microservices.Failure.{Err, wrap}

pub data Result {ℓ} (A : Type ℓ) : Type ℓ where
  ok : A → Result A
  err : Err → Result A

module _ {κ} {A : Type κ} where
  abbrev pub context_of : String → Result A → Result A
  context_of c (ok a) = ok a
  context_of c (err e) = err (wrap c e)

-- 1 where a call handed a value out, 0 where it returned an error.
module _ {κ} {A : Type κ} where
  abbrev pub handed : Result A → ℕ
  handed (ok a) = 1
  handed (err e) = 0

abbrev pub Action {ℓ κ} : Type ℓ → Type κ → Type (ℓ ⊔ κ)
Action S A = S → Result A × S

module _ {ℓ κ} {S : Type ℓ} {A : Type κ} where
  abbrev pub pure : A → Action S A
  pure a s = (ok a, s)

  abbrev pub fail : Err → Action S A
  fail e s = (err e, s)

  abbrev pub lift : Result A → Action S A
  lift r s = (r, s)

  -- `if err != nil { return nil, fmt.Errorf("c: %w", err) }`
  abbrev pub within : String → Action S A → Action S A
  within c m s = let (r, s') = m s in (context_of c r, s')

module _ {ℓ κ μ} {S : Type ℓ} {A : Type κ} {B : Type μ} where
  abbrev pub continue : Result A → (A → Action S B) → Action S B
  continue (ok a) f s = f a s
  continue (err e) f s = (err e, s)

  infixl 5 ◌>>=◌ ◌>>◌
  abbrev pub ◌>>=◌ : Action S A → (A → Action S B) → Action S B
  ◌>>=◌ m f s = let (r, s') = m s in continue r f s'

  abbrev pub ◌>>◌ : Action S A → Action S B → Action S B
  m >> k = m >>= λ _. k

  -- Both ways to go on from a call: with its value, or with its error.
  abbrev pub handle : Result A → (A → Action S B) → (Err → Action S B) → Action S B
  handle (ok a) f g s = f a s
  handle (err e) f g s = g e s
