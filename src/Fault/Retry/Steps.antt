-- ===== src/Fault/Retry/Steps.antt =====
-- One round of the loop, by how it ends.
use notes_microservices.Prelude.{ℕ, zero, suc, ◌≡◌, refl, true, false, Option, none, some, min}
use notes_microservices.Failure.{Err}
use notes_microservices.Fault.Retry.{Retry, Return, ends, cancelled, retry_from}

module _ {ℓ κ} {S : Type ℓ} {T : Type κ} (rt : Retry) (operation : S → Return T × S)
    (wait : ℕ → S → Option Err × S) (zero_value : T) where
  pub retry_from-ends :
      (left backoff : ℕ) (s : S)
      → ends rt (operation s).0.error ≡ true
      → retry_from rt operation wait zero_value left backoff s ≡ operation s
  unfolding retry_from
  retry_from-ends zero backoff s e = refl
  retry_from-ends (suc left) backoff s e = rw (e, retry_from)

  pub retry_from-cancelled :
      (left backoff : ℕ) (s : S) (c : Err)
      → ends rt (operation s).0.error ≡ false
      → (wait backoff (operation s).1).0 ≡ some c
      → retry_from rt operation wait zero_value (suc left) backoff s
        ≡ (cancelled zero_value c, (wait backoff (operation s).1).1)
  unfolding retry_from
  retry_from-cancelled left backoff s c e d = rw (e, d, retry_from)

  pub retry_from-again :
      (left backoff : ℕ) (s : S)
      → ends rt (operation s).0.error ≡ false
      → (wait backoff (operation s).1).0 ≡ none
      → retry_from rt operation wait zero_value (suc left) backoff s
        ≡ retry_from rt operation wait zero_value left
            (min (rt.grow backoff) rt.max_backoff)
            (wait backoff (operation s).1).1
  unfolding retry_from
  retry_from-again left backoff s e d = rw (e, d, retry_from)
