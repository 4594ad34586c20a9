-- ===== src/Action/Laws.antt =====
-- Inversion of actions that succeed.
use notes_microservices.Prelude.{◌≡◌, ◌⊎◌, inl, inr, refl, ap, String}
use notes_microservices.Failure.{Err}
use notes_microservices.Action.{Action, Result, ok, err, context_of, within, continue, ◌>>=◌}

module _ {κ} {A : Type κ} where
  pub Result-cases : (r : Result A) → ((a : A) × (r ≡ ok a)) ⊎ ((e : Err) × (r ≡ err e))
  Result-cases (ok a) = inl (a, refl)
  Result-cases (err e) = inr (e, refl)

  pub context_of-eq-ok : (c : String) (r : Result A) {a : A} → context_of c r ≡ ok a → r ≡ ok a
  context_of-eq-ok c (ok a) h = h
  context_of-eq-ok c (err e) h = cc

module _ {ℓ κ} {S : Type ℓ} {A : Type κ} where
  pub within-eq-ok :
      (c : String) (m : Action S A) (s : S) {a : A} → (within c m s).0 ≡ ok a → (m s).0 ≡ ok a
  within-eq-ok c m s h = context_of-eq-ok c (m s).0 h

module _ {ℓ κ μ} {S : Type ℓ} {A : Type κ} {B : Type μ} where
  continue-eq-ok :
      (r : Result A) (f : A → Action S B) (s : S) {b : B}
      → (continue r f s).0 ≡ ok b
      → (a : A) × (r ≡ ok a) × ((f a s).0 ≡ ok b)
  continue-eq-ok (ok a) f s h = (a, refl, h)
  continue-eq-ok (err e) f s h = cc

  pub bind-eq-ok :
      (m : Action S A) (f : A → Action S B) (s : S) {b : B}
      → ((m >>= f) s).0 ≡ ok b
      → (a : A) × ((m s).0 ≡ ok a) × ((f a (m s).1).0 ≡ ok b)
  bind-eq-ok m f s h = let (r, s') = m s in continue-eq-ok r f s' h

-- What holds of the value and the state when an action succeeds.
module _ {ℓ κ μ} {S : Type ℓ} {A : Type κ} where
  abbrev pub OnOk : Action S A → S → (A → S → Type μ) → Type (κ ⊔ μ)
  OnOk m s P = (a : A) → (m s).0 ≡ ok a → P a (m s).1

module _ {ℓ κ μ ν} {S : Type ℓ} {A : Type κ} {B : Type μ} where
  on_ok-continue :
      (r : Result A) (f : A → Action S B) (s : S) (P : B → S → Type ν)
      → ((a : A) → r ≡ ok a → OnOk (f a) s P)
      → OnOk (continue r f) s P
  on_ok-continue (ok a) f s P k = k a refl
  on_ok-continue (err e) f s P k = λ b h. cc

  pub on_ok-bind :
      (m : Action S A) (f : A → Action S B) (s : S) (P : B → S → Type ν)
      → ((a : A) → (m s).0 ≡ ok a → OnOk (f a) (m s).1 P)
      → OnOk (m >>= f) s P
  on_ok-bind m f s P k = let (r, s') = m s in on_ok-continue r f s' P k

-- A chain whose first action is known.
module _ {ℓ κ μ} {S : Type ℓ} {A : Type κ} {B : Type μ} where
  pub bind-ok :
      (c : String) (m : Action S A) (f : A → Action S B) (s s' : S) (a : A)
      → m s ≡ (ok a, s')
      → (within c m >>= f) s ≡ f a s'
  bind-ok c m f s s' a known = ap (λ p. continue (context_of c p.0) f p.1) known
