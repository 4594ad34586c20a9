-- ===== src/Bcrypt.antt =====
-- internal/adapters/bcrypt/bcrypt.go. golang.org/x/crypto/bcrypt is the parameter `BcryptLibrary`, and
-- `cancelled s` is `ctx.Err()`.
pub mod Passwords
use notes_microservices.Prelude.{
  ℕ, ℤ, pos, negsuc, String, Bool, true, false, ◌||◌, Option, none, some, str_eq, ltb, gtb_ℤ,
  if◌then◌else◌,
}
use notes_microservices.Failure.{Err, sentinel, wrap, is_foreign, mismatched_hash, empty_password}
use notes_microservices.Action.{Action, Result, ok, err, context_of}
use notes_microservices.Ports.{PasswordService}

-- `MinCost`, `MaxCost` and `DefaultCost`; `GenerateFromPassword` on a state that its salt comes from,
-- and `CompareHashAndPassword`, nil where it is `none`.
pub record BcryptLibrary (S : Type 0) : Type 0 where
  pub min_cost : ℕ
  pub max_cost : ℕ
  pub default_cost : ℕ
  pub generate_from_password : String → ℤ → S → Result String × S
  pub compare_hash_and_password : String → String → Option Err

-- cost < n, for a cost that may be negative.
abbrev pub below : ℤ → ℕ → Bool
below (pos a) n = ltb a n
below (negsuc a) n = true

module _ {S : Type 0} (lib : BcryptLibrary S) where
  -- `NewBcrypt`: the cost that the service keeps.
  unfoldable pub new_bcrypt : ℤ → ℤ
  new_bcrypt cost =
      let cost' = if below cost lib.min_cost then pos lib.default_cost else cost in
      if gtb_ℤ cost' lib.max_cost then pos lib.max_cost else cost'

  -- `if err := ctx.Err(); err != nil { return …, err }`
  abbrev pub unless_cancelled {ℓ} : {A : Type ℓ} → Option Err → Action S A → Action S A
  unless_cancelled none k s = k s
  unless_cancelled (some e) k s = (err e, s)

  abbrev pub compared : Option Err → Result Bool
  compared none = ok true
  compared (some e) =
      if is_foreign e mismatched_hash then ok false else err (wrap "bcrypt: compare hash" e)

  unfoldable pub hash : (S → Option Err) → ℤ → String → Action S String
  hash cancelled cost password s =
      if str_eq password ""
      then (err (sentinel empty_password), s)
      else unless_cancelled (cancelled s)
          (λ s.
            let (r, s') = lib.generate_from_password password cost s in
            (context_of "bcrypt: generate hash" r, s'))
          s

  unfoldable pub verify : (S → Option Err) → String → String → Action S Bool
  verify cancelled password hash s =
      if str_eq password "" || str_eq hash ""
      then (err (sentinel empty_password), s)
      else unless_cancelled (cancelled s)
          (λ s. (compared (lib.compare_hash_and_password hash password), s)) s

  unfoldable pub password_service : (S → Option Err) → ℤ → PasswordService S
  unfolding hash verify new_bcrypt
  password_service cancelled cost = record {
    hash = hash cancelled (new_bcrypt cost);
    verify = verify cancelled;
  }
