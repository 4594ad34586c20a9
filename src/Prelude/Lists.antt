-- ===== src/Prelude/Lists.antt =====
-- Lists over the native numbers, Boolean filters and the predicate that holds of every item.
use Prim.Native.Nat.{ℕ, zero, suc, ◌≤◌}
use mathlib.Core.Path.{◌≡◌, refl}
use mathlib.Core.Bool.{Bool, true, false, not, ◌&&◌, ◌||◌}
use mathlib.Core.List.{List, [], ◌∷◌, ◌++◌}
use mathlib.Core.Option.{Option, none, some}
use native.Mathlib.Omega.{arith}
use mathlib.Core.Option
use mathlib.Core.Logic.{inl, inr}
use notes_microservices.Prelude.Tests.{if◌then◌else◌, Bool-cases}

module _ {ℓ} {A : Type ℓ} where
  abbrev pub length : List A → ℕ
  length [] = 0
  length (x ∷ xs) = suc (length xs)

  abbrev pub take : ℕ → List A → List A
  take zero xs = []
  take (suc n) [] = []
  take (suc n) (x ∷ xs) = x ∷ take n xs

  abbrev pub drop : ℕ → List A → List A
  drop zero xs = xs
  drop (suc n) [] = []
  drop (suc n) (x ∷ xs) = drop n xs

  abbrev pub any : (A → Bool) → List A → Bool
  any p [] = false
  any p (x ∷ xs) = p x || any p xs

  abbrev pub all : (A → Bool) → List A → Bool
  all p [] = true
  all p (x ∷ xs) = p x && all p xs

  -- The items that pass a test.
  abbrev pub select : (A → Bool) → List A → List A
  select p [] = []
  select p (x ∷ xs) = let rest = select p xs in if p x then x ∷ rest else rest

  -- The first item that passes a test.
  abbrev pub find : (A → Bool) → List A → Option A
  find p [] = none
  find p (x ∷ xs) = let rest = find p xs in if p x then some x else rest

  -- How many items pass a test.
  abbrev pub count : (A → Bool) → List A → ℕ
  count p [] = 0
  count p (x ∷ xs) = let rest = count p xs in if p x then suc rest else rest

  -- The items that pass a test are changed, the others stay.
  abbrev pub update : (A → Bool) → (A → A) → List A → List A
  update p f [] = []
  update p f (x ∷ xs) = (if p x then f x else x) ∷ update p f xs

  pub length-take : (n : ℕ) (xs : List A) → length (take n xs) ≤ n
  length-take zero xs = omega arith
  length-take (suc n) [] = omega arith
  length-take (suc n) (x ∷ xs) = omega (arith, length-take n xs)

  pub length-select : (p : A → Bool) (xs : List A) → length (select p xs) ≡ count p xs
  length-select p [] = refl
  length-select p (x ∷ xs) = ground (arith, length-select p xs)

module _ {ℓ κ} {A : Type ℓ} where
  abbrev pub All : (A → Type κ) → List A → Type κ
  All P [] = Unit
  All P (x ∷ xs) = P x × All P xs

module _ {ℓ κ} {A : Type ℓ} (P : A → Type κ) where
  pub All-take : (n : ℕ) (xs : List A) → All P xs → All P (take n xs)
  All-take zero xs h = tt
  All-take (suc n) [] h = tt
  All-take (suc n) (x ∷ xs) (p, h) = (p, All-take n xs h)

  pub All-drop : (n : ℕ) (xs : List A) → All P xs → All P (drop n xs)
  All-drop zero xs h = h
  All-drop (suc n) [] h = tt
  All-drop (suc n) (x ∷ xs) (p, h) = All-drop n xs h

  pub All-append : (xs ys : List A) → All P xs → All P ys → All P (xs ++ ys)
  All-append [] ys h k = k
  All-append (x ∷ xs) ys (p, h) k = (p, All-append xs ys h k)

module _ {ℓ} {A : Type ℓ} where
  pub select-append :
      (p : A → Bool) (xs ys : List A) → select p (xs ++ ys) ≡ select p xs ++ select p ys
  select-append p [] ys = refl
  select-append p (x ∷ xs) ys = ground (arith, select-append p xs ys)

  -- A change of items that a test does not select, before and after, is not selected.
  pub select-update_apart :
      (q p : A → Bool) (f : A → A)
      → ((x : A) → p x ≡ true → (q x ≡ false) × (q (f x) ≡ false))
      → (xs : List A) → select q (update p f xs) ≡ select q xs
  select-update_apart q p f apart [] = refl
  select-update_apart q p f apart (x ∷ xs) =
      ground (arith, apart x, select-update_apart q p f apart xs)

  -- Leaving out items that a test does not select changes nothing that it selects.
  pub select-select_apart :
      (q p : A → Bool)
      → ((x : A) → p x ≡ false → q x ≡ false)
      → (xs : List A) → select q (select p xs) ≡ select q xs
  select-select_apart q p apart [] = refl
  select-select_apart q p apart (x ∷ xs) = ground (arith, apart x, select-select_apart q p apart xs)

  pub All-select : (p : A → Bool) (xs : List A) → All (λ x. p x ≡ true) (select p xs)
  All-select p [] = tt
  All-select p (x ∷ xs) = ground (arith, All-select p xs)

  pub find-holds : (p : A → Bool) (xs : List A) (x : A) → find p xs ≡ some x → p x ≡ true
  find-holds p [] x h = cc
  find-holds p (y ∷ xs) x h = ground (arith, find-holds p xs x)

  -- An item that a test refuses, at the end, is not selected.
  pub select-append_refused :
      (p : A → Bool) (xs : List A) (y : A) → p y ≡ false → select p (xs ++ y ∷ []) ≡ select p xs
  select-append_refused p [] y h = ground arith
  select-append_refused p (x ∷ xs) y h = ground (arith, select-append_refused p xs y)

  pub count_of_All :
      (p : A → Bool) (xs : List A) → All (λ x. p x ≡ true) xs → count (λ x. not (p x)) xs ≡ 0
  count_of_All p [] h = refl
  count_of_All p (x ∷ xs) h = ground (arith, count_of_All p xs)

  pub All-of_count :
      (p : A → Bool) (xs : List A) → count (λ x. not (p x)) xs ≡ 0 → All (λ x. p x ≡ true) xs
  All-of_count p [] h = tt
  All-of_count p (x ∷ xs) h = ground (arith, All-of_count p xs)

  -- Where no item passes a test, a change of those that do changes nothing.
  pub update_of_count :
      (p : A → Bool) (f : A → A) (xs : List A) → count p xs ≡ 0 → update p f xs ≡ xs
  update_of_count p f [] h = refl
  update_of_count p f (x ∷ xs) h = ground (arith, update_of_count p f xs)

  pub select-not_of_count :
      (p : A → Bool) (xs : List A) → count p xs ≡ 0 → select (λ x. not (p x)) xs ≡ xs
  select-not_of_count p [] h = refl
  select-not_of_count p (x ∷ xs) h = ground (arith, select-not_of_count p xs)

  pub find-none_mono :
      (p q : A → Bool) (xs : List A)
      → ((x : A) → p x ≡ true → q x ≡ true)
      → find q xs ≡ none
      → find p xs ≡ none
  find-none_mono p q [] sub h = refl
  find-none_mono p q (x ∷ xs) sub h = ground (arith, sub x, find-none_mono p q xs sub)

  pub find-append_none :
      (p : A → Bool) (xs : List A) (y : A)
      → find p xs ≡ none
      → p y ≡ true
      → find p (xs ++ y ∷ []) ≡ some y
  find-append_none p [] y h k = ground arith
  find-append_none p (x ∷ xs) y h k = ground (arith, find-append_none p xs y)

  -- What a search finds after items were changed, left out or added at the end.
  pub find-update_self :
      (p : A → Bool) (f : A → A)
      → ((x : A) → p x ≡ true → p (f x) ≡ true)
      → (xs : List A) → find p (update p f xs) ≡ Option.map f (find p xs)
  find-update_self p f kept [] = refl
  find-update_self p f kept (x ∷ xs) = ground (arith, kept x, find-update_self p f kept xs)

  pub find-update_apart :
      (q p : A → Bool) (f : A → A)
      → ((x : A) → p x ≡ true → (q x ≡ false) × (q (f x) ≡ false))
      → (xs : List A) → find q (update p f xs) ≡ find q xs
  find-update_apart q p f apart [] = refl
  find-update_apart q p f apart (x ∷ xs) = ground (arith, apart x, find-update_apart q p f apart xs)

  pub find-select_self : (p : A → Bool) (xs : List A) → find p (select (λ x. not (p x)) xs) ≡ none
  find-select_self p [] = refl
  find-select_self p (x ∷ xs) = ground (arith, find-select_self p xs)

  pub find-select_apart :
      (q p : A → Bool)
      → ((x : A) → p x ≡ true → q x ≡ false)
      → (xs : List A) → find q (select (λ x. not (p x)) xs) ≡ find q xs
  find-select_apart q p apart [] = refl
  find-select_apart q p apart (x ∷ xs) = ground (arith, apart x, find-select_apart q p apart xs)

  pub find-append_refused :
      (p : A → Bool) (xs : List A) (y : A) → p y ≡ false → find p (xs ++ y ∷ []) ≡ find p xs
  find-append_refused p [] y h = ground arith
  find-append_refused p (x ∷ xs) y h = ground (arith, find-append_refused p xs y)

  -- A search finds something exactly if the count is not zero.
  pub count_of_none : (p : A → Bool) (xs : List A) → find p xs ≡ none → count p xs ≡ 0
  count_of_none p [] h = refl
  count_of_none p (x ∷ xs) h = ground (arith, count_of_none p xs)

  pub count_of_some :
      (p : A → Bool) (xs : List A) (x : A) → find p xs ≡ some x → (n : ℕ) × (count p xs ≡ suc n)
  count_of_some p [] x h = cc
  count_of_some p (y ∷ xs) x h = elim (Bool-cases (p y)) [
    | inl here ↦ (count p xs, ground arith)
    | inr elsewhere ↦ (let (n, counted) = count_of_some p xs x (ground arith) in (n, ground arith))
  ]
