-- ===== src/Bcrypt/Passwords.antt =====
-- Passwords and their hashes.
use notes_microservices.Prelude.{
  ℕ, ◌≤◌, ◌≡◌, ◌≢◌, ℤ, pos, negsuc, String, true, false, Option, none, str_eq, arith, eq_iff, ltb,
  Bool-cases, inl, inr,
}
use notes_microservices.Failure.{Err}
use notes_microservices.Action.{Result, ok, err, context_of}
use notes_microservices.Bcrypt.{BcryptLibrary, new_bcrypt, hash, verify}

-- What the library documents: a hash that it makes of a password matches that password and is not
-- empty.
pub record IsSound {S : Type 0} (lib : BcryptLibrary S) : Type 0 where
  pub matches :
      (password hashed : String) (cost : ℤ) (s s' : S)
      → lib.generate_from_password password cost s ≡ (ok hashed, s')
      → lib.compare_hash_and_password hashed password ≡ none
  pub filled :
      (password hashed : String) (cost : ℤ) (s s' : S)
      → lib.generate_from_password password cost s ≡ (ok hashed, s')
      → hashed ≢ ""

module _ {S : Type 0} (lib : BcryptLibrary S) where
  -- Whatever cost is configured, a service's cost is between the library's bounds.
  pub new_bcrypt-bounds :
      lib.min_cost ≤ lib.default_cost
      → lib.default_cost ≤ lib.max_cost
      → (cost : ℤ)
      → (n : ℕ) × (new_bcrypt lib cost ≡ pos n) × (lib.min_cost ≤ n) × (n ≤ lib.max_cost)
  unfolding new_bcrypt
  new_bcrypt-bounds low high (pos a) = elim (Bool-cases (ltb a lib.min_cost)) [
    | inl small ↦ (lib.default_cost, ground arith, ground arith, ground arith)
    | inr big ↦ elim (Bool-cases (ltb lib.max_cost a)) [
      | inl huge ↦ (lib.max_cost, ground arith, ground arith, ground arith)
      | inr fits ↦ (a, ground arith, ground arith, ground arith)
    ]
  ]
  new_bcrypt-bounds low high (negsuc a) =
      (lib.default_cost, ground arith, ground arith, ground arith)

  hash-generated :
      (r : Result String) (t : S) (hashed : String) (s' : S)
      → ◌≡◌ {A = Result String × S} (context_of "bcrypt: generate hash" r, t) (ok hashed, s')
      → ◌≡◌ {A = Result String × S} (r, t) (ok hashed, s')
  hash-generated (ok h) t hashed s' same = ground arith
  hash-generated (err e) t hashed s' same = ground arith

  hash-made :
      (cancelled : S → Option Err) (cost : ℤ) (password hashed : String) (s s' : S)
      → hash lib cancelled cost password s ≡ (ok hashed, s')
      → (str_eq password "" ≡ false)
        × (lib.generate_from_password password cost s ≡ (ok hashed, s'))
  unfolding hash
  hash-made cancelled cost password hashed s s' made =
      let given : str_eq password "" ≡ false = ground arith in
      let alive : cancelled s ≡ none = ground arith in
      let (r, t) = lib.generate_from_password password cost s in
      (given, hash-generated r t hashed s' (ground arith))

  -- A password that was hashed is verified, at any later state, by the hash that was returned.
  pub hash-verifies :
      IsSound lib
      → (cancelled : S → Option Err) (cost : ℤ) (password hashed : String) (s s' t : S)
      → hash lib cancelled cost password s ≡ (ok hashed, s')
      → cancelled t ≡ none
      → verify lib cancelled password hashed t ≡ (ok true, t)
  unfolding verify
  hash-verifies sound cancelled cost password hashed s s' t made quiet =
      let (given, generated) = hash-made cancelled cost password hashed s s' made in
      let same = sound.matches password hashed cost s s' generated in
      let full = sound.filled password hashed cost s s' generated in
      ground (arith, eq_iff hashed "")
