-- ===== src/VectorIndex/Rows.antt =====
-- Rows of a matrix: an element is set, added at the end, or taken from the end.
use pysearch.Base.{
  ℕ, zero, suc, ◌+◌, ◌-◌, ◌<◌, some, List, [], ◌∷◌, ◌++◌, ◌≡◌, ◌≢◌, refl, ap, length, get_elem?,
  set, pop, replicate, arith,
}

module _ {ℓ} {A : Type ℓ} where
  pub length-set : (xs : List A) (i : ℕ) (v : A) → length (set xs i v) ≡ length xs
  length-set [] i v = refl
  length-set (x ∷ xs) zero v = refl
  length-set (x ∷ xs) (suc i) v = ap suc (length-set xs i v)

  pub length-replicate : (n : ℕ) (x : A) → length (replicate n x) ≡ n
  length-replicate zero x = refl
  length-replicate (suc n) x = ap suc (length-replicate n x)

  pub get_elem?-set :
      (xs : List A) (i : ℕ) (v : A) → i < length xs → get_elem? (set xs i v) i ≡ some v
  get_elem?-set [] i v h = absurd (omega arith)
  get_elem?-set (x ∷ xs) zero v h = refl
  get_elem?-set (x ∷ xs) (suc i) v h = get_elem?-set xs i v (omega arith)

  pub get_elem?-set_other :
      (xs : List A) (i j : ℕ) (v : A) → i ≢ j → get_elem? (set xs i v) j ≡ get_elem? xs j
  get_elem?-set_other [] i j v h = refl
  get_elem?-set_other (x ∷ xs) zero zero v h = absurd (h refl)
  get_elem?-set_other (x ∷ xs) zero (suc j) v h = refl
  get_elem?-set_other (x ∷ xs) (suc i) zero v h = refl
  get_elem?-set_other (x ∷ xs) (suc i) (suc j) v h =
      get_elem?-set_other xs i j v (λ e. h (ap suc e))

  pub get_elem?-append :
      (xs ys : List A) (i : ℕ) → i < length xs → get_elem? (xs ++ ys) i ≡ get_elem? xs i
  get_elem?-append [] ys i h = absurd (omega arith)
  get_elem?-append (x ∷ xs) ys zero h = refl
  get_elem?-append (x ∷ xs) ys (suc i) h = get_elem?-append xs ys i (omega arith)

  pub get_elem?-last : (xs : List A) (y : A) → get_elem? (xs ++ y ∷ []) (length xs) ≡ some y
  get_elem?-last [] y = refl
  get_elem?-last (x ∷ xs) y = get_elem?-last xs y

  pub get_elem?-bound : (xs : List A) (i : ℕ) (x : A) → get_elem? xs i ≡ some x → i < length xs
  get_elem?-bound [] i x h = absurd cc
  get_elem?-bound (y ∷ xs) zero x h = omega arith
  get_elem?-bound (y ∷ xs) (suc i) x h = omega (arith, get_elem?-bound xs i x h)

  pub length-pop : (xs : List A) → length (pop xs) ≡ length xs - 1
  length-pop [] = omega arith
  length-pop (x ∷ []) = omega arith
  length-pop (x ∷ y ∷ xs) = omega (arith, length-pop (y ∷ xs))

  pub get_elem?-pop :
      (xs : List A) (i : ℕ) → i + 1 < length xs → get_elem? (pop xs) i ≡ get_elem? xs i
  get_elem?-pop [] i h = absurd (omega arith)
  get_elem?-pop (x ∷ []) i h = absurd (omega arith)
  get_elem?-pop (x ∷ y ∷ xs) zero h = refl
  get_elem?-pop (x ∷ y ∷ xs) (suc i) h = get_elem?-pop (y ∷ xs) i (omega arith)

  pub get_elem?-present :
      (xs : List A) (i : ℕ) → i < length xs → (x : A) × (get_elem? xs i ≡ some x)
  get_elem?-present [] i h = absurd (omega arith)
  get_elem?-present (x ∷ xs) zero h = (x, refl)
  get_elem?-present (x ∷ xs) (suc i) h = get_elem?-present xs i (omega arith)
