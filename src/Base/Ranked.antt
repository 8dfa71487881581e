-- ===== src/Base/Ranked.antt =====
-- `sorted(xs, key=…)`: a stable sort by a total preorder, and merging of truncated lists.
use Prim.Native.Nat.{suc}
use mathlib.Core.Path.{◌≡◌, refl, ap, ◌∙◌}
use mathlib.Core.Logic.{inl, inr}
use mathlib.Core.Bool.{Bool, true, false}
use mathlib.Core.List.{List, [], ◌∷◌}
use pysearch.Base.Tests.{if◌then◌else◌, Bool-cases}
use pysearch.Base.Lists.{length}

-- The comparison `key(a) <= key(b)` of a sort: total and transitive.
pub record IsPreorder {ℓ} {A : Type ℓ} (le : A → A → Bool) : Type ℓ where
  pub total : (a b : A) → le a b ≡ false → le b a ≡ true
  pub trans : (a b c : A) → le a b ≡ true → le b c ≡ true → le a c ≡ true

module _ {ℓ} {A : Type ℓ} (le : A → A → Bool) where
  unfoldable pub insert : A → List A → List A
  insert x [] = x ∷ []
  insert x (y ∷ ys) = let rest = insert x ys in if le x y then x ∷ y ∷ ys else y ∷ rest

  unfoldable pub insert_all : List A → List A → List A
  unfolding insert
  insert_all [] acc = acc
  insert_all (x ∷ xs) acc = insert x (insert_all xs acc)

  -- Equal keys keep the order of the input.
  unfoldable pub sorted : List A → List A
  unfolding insert_all
  sorted xs = insert_all xs []

  abbrev pub IsSorted : List A → Type 0
  IsSorted [] = Unit
  IsSorted (x ∷ []) = Unit
  IsSorted (x ∷ y ∷ l) = (le x y ≡ true) × IsSorted (y ∷ l)

  length-insert : (x : A) (l : List A) → length (insert x l) ≡ suc (length l)
  unfolding insert
  length-insert x [] = refl
  length-insert x (y ∷ l) = elim (Bool-cases (le x y)) [
    | inl e ↦ rw e
    | inr e ↦ rw e (ap suc (length-insert x l))
  ]

  pub length-sorted : (l : List A) → length (sorted l) ≡ length l
  unfolding sorted
  length-sorted [] = refl
  length-sorted (x ∷ l) = length-insert x (sorted l) ∙ ap suc (length-sorted l)
