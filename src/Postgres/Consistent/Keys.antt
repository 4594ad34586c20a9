-- ===== src/Postgres/Consistent/Keys.antt =====
-- Lists in which no two items have the same key, and what keeps them so.
use notes_microservices.Prelude.{
  ◌≡◌, ◌≤◌, refl, sym, count, String, Bool, false, List, [], ◌∷◌, any, str_eq, eq_iff, arith, inl,
  inr, Bool-cases,
}

module _ {A : Type 0} (key : A → String) where
  abbrev pub has_key : String → A → Bool
  has_key k x = str_eq (key x) k

  abbrev pub AllDistinct : List A → Type 0
  AllDistinct [] = Unit
  AllDistinct (x ∷ xs) = (any (has_key (key x)) xs ≡ false) × AllDistinct xs

  count_of_absent :
      (k : String) (xs : List A) → any (has_key k) xs ≡ false → count (has_key k) xs ≡ 0
  count_of_absent k [] h = refl
  count_of_absent k (x ∷ xs) h = ground (arith, count_of_absent k xs)

  -- One item at most has a given key.
  pub count_of_AllDistinct : (k : String) (xs : List A) → AllDistinct xs → count (has_key k) xs ≤ 1
  count_of_AllDistinct k [] h = omega arith
  count_of_AllDistinct k (x ∷ xs) (q, h) = elim (Bool-cases (has_key k x)) [
    | inl here ↦
        (let same : key x ≡ k = ground (arith, eq_iff (key x) k) in
          let absent : any (has_key k) xs ≡ false = rw (sym same) q in
          let counted = count_of_absent k xs absent in ground arith)
    | inr elsewhere ↦ ground (arith, count_of_AllDistinct k xs h)
  ]
