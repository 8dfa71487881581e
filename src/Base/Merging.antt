-- ===== src/Base/Merging.antt =====
-- The laws of the stable sort: it is a merge of sorted halves, and the first `k` of a merge are
-- decided by the first `k` of each side.
use Prim.Native.Nat.{ℕ, zero, suc, ◌≤◌}
use mathlib.Core.Path.{◌≡◌, refl, ap, sym, ◌∙◌}
use mathlib.Core.Logic.{inl, inr}
use mathlib.Core.Bool.{Bool, true, false}
use mathlib.Core.List.{List, [], ◌∷◌, ◌++◌}
use native.Mathlib.Omega.{arith}
use pysearch.Base.Tests.{if◌then◌else◌, Bool-cases}
use pysearch.Base.Lists.{take, take-take, concat_map}
use pysearch.Base.Ranked.{IsPreorder, insert, insert_all, sorted, IsSorted}

module _ {ℓ} {A : Type ℓ} (le : A → A → Bool) where
  -- A stable merge: on equal keys the left list goes first.
  merge : List A → List A → List A
  merge [] ys = ys
  merge (x ∷ xs) [] = x ∷ xs
  merge (x ∷ xs) (y ∷ ys) =
      let left = x ∷ merge xs (y ∷ ys) in
      let right = y ∷ merge (x ∷ xs) ys in if le x y then left else right

  -- A truncated left side is enough, and so is a truncated right side.
  take-merge_left :
      (k j : ℕ) (xs ys : List A) → k ≤ j → take k (merge (take j xs) ys) ≡ take k (merge xs ys)
  unfolding merge
  take-merge_left zero j xs ys h = refl
  take-merge_left (suc k) zero xs ys h = absurd (omega arith)
  take-merge_left (suc k) (suc j) [] ys h = refl
  take-merge_left (suc k) (suc j) (x ∷ xs) [] h = ap (λ l. x ∷ l) (take-take k j xs (omega arith))
  take-merge_left (suc k) (suc j) (x ∷ xs) (y ∷ ys) h = elim (Bool-cases (le x y)) [
    | inl e ↦ rw e (ap (λ l. x ∷ l) (take-merge_left k j xs (y ∷ ys) (omega arith)))
    | inr e ↦ rw e (ap (λ l. y ∷ l) (take-merge_left k (suc j) (x ∷ xs) ys (omega arith)))
  ]

  take-merge_right :
      (k j : ℕ) (xs ys : List A) → k ≤ j → take k (merge xs (take j ys)) ≡ take k (merge xs ys)
  unfolding merge
  take-merge_right zero j xs ys h = refl
  take-merge_right (suc k) zero xs ys h = absurd (omega arith)
  take-merge_right (suc k) (suc j) [] ys h = take-take (suc k) (suc j) ys h
  take-merge_right (suc k) (suc j) (x ∷ xs) [] h = refl
  take-merge_right (suc k) (suc j) (x ∷ xs) (y ∷ ys) h = elim (Bool-cases (le x y)) [
    | inl e ↦ rw e (ap (λ l. x ∷ l) (take-merge_right k (suc j) xs (y ∷ ys) (omega arith)))
    | inr e ↦ rw e (ap (λ l. y ∷ l) (take-merge_right k j (x ∷ xs) ys (omega arith)))
  ]

module _ {ℓ} {A : Type ℓ} {le : A → A → Bool} (o : IsPreorder le) where
  -- `x` goes before everything in `l`.
  abbrev Before : A → List A → Type 0
  Before x [] = Unit
  Before x (y ∷ l) = (le x y ≡ true) × Before x l

  Before-le : (x y : A) (l : List A) → le x y ≡ true → Before y l → Before x l
  Before-le x y [] h b = tt
  Before-le x y (z ∷ l) h b = (o.trans x y z h b.0, Before-le x y l h b.1)

  IsSorted-Before : (x : A) (l : List A) → IsSorted le (x ∷ l) → Before x l
  IsSorted-Before x [] s = tt
  IsSorted-Before x (y ∷ l) s = (s.0, Before-le x y l s.0 (IsSorted-Before y l s.1))

  insert-Before : (x : A) (l : List A) → Before x l → insert le x l ≡ x ∷ l
  unfolding insert
  insert-Before x [] b = refl
  insert-Before x (y ∷ l) b = rw b.0

  pub IsSorted-tail : (x : A) (l : List A) → IsSorted le (x ∷ l) → IsSorted le l
  IsSorted-tail x [] s = tt
  IsSorted-tail x (y ∷ l) s = s.1

  IsSorted-cons : (x : A) (l : List A) → Before x l → IsSorted le l → IsSorted le (x ∷ l)
  IsSorted-cons x [] b s = tt
  IsSorted-cons x (y ∷ l) b s = (b.0, s)

  Before-insert : (x y : A) (l : List A) → le x y ≡ true → Before x l → Before x (insert le y l)
  unfolding insert
  Before-insert x y [] h b = (h, tt)
  Before-insert x y (z ∷ l) h b = elim (Bool-cases (le y z)) [
    | inl e ↦ rw e (h, b)
    | inr e ↦ rw e (b.0, Before-insert x y l h b.1)
  ]

  insert-IsSorted : (x : A) (l : List A) → IsSorted le l → IsSorted le (insert le x l)
  unfolding insert
  insert-IsSorted x [] s = tt
  insert-IsSorted x (y ∷ l) s = elim (Bool-cases (le x y)) [
    | inl e ↦ rw e (e, s)
    | inr e ↦ rw e (
        IsSorted-cons y (insert le x l)
          (Before-insert y x l (o.total x y e) (IsSorted-Before y l s))
          (insert-IsSorted x l (IsSorted-tail y l s)))
  ]

  -- Sorting gives a sorted list.
  pub sorted-IsSorted : (l : List A) → IsSorted le (sorted le l)
  unfolding sorted
  sorted-IsSorted [] = tt
  sorted-IsSorted (x ∷ l) = insert-IsSorted x (sorted le l) (sorted-IsSorted l)

  -- Sorting a sorted list changes nothing.
  pub sorted_of_sorted : (l : List A) → IsSorted le l → sorted le l ≡ l
  unfolding sorted
  sorted_of_sorted [] s = refl
  sorted_of_sorted (x ∷ l) s =
      rw (sorted_of_sorted l (IsSorted-tail x l s)) (insert-Before x l (IsSorted-Before x l s))

  pub IsSorted-take : (k : ℕ) (l : List A) → IsSorted le l → IsSorted le (take k l)
  IsSorted-take zero l s = tt
  IsSorted-take (suc k) [] s = tt
  IsSorted-take (suc zero) (x ∷ l) s = tt
  IsSorted-take (suc (suc k)) (x ∷ []) s = tt
  IsSorted-take (suc (suc k)) (x ∷ y ∷ l) s = (s.0, IsSorted-take (suc k) (y ∷ l) s.1)

  insert_comm :
      (x y : A) (l : List A)
      → le x y ≡ false
      → insert le x (insert le y l) ≡ insert le y (insert le x l)
  unfolding insert
  insert_comm x y [] h = rw (h, o.total x y h)
  insert_comm x y (z ∷ l) h = ground (
    arith,
    o.total x y,
    o.trans y x z,
    o.trans x z y,
    o.total y z,
    o.total x z,
    insert_comm x y l,
  )

  insert_all-insert :
      (x : A) (l acc : List A)
      → insert_all le (insert le x l) acc ≡ insert le x (insert_all le l acc)
  unfolding insert_all
  insert_all-insert x [] acc = refl
  insert_all-insert x (y ∷ l) acc = elim (Bool-cases (le x y)) [
    | inl e ↦ rw e
    | inr e ↦ rw e (
        ap (insert le y) (insert_all-insert x l acc)
        ∙ sym (insert_comm x y (insert_all le l acc) e))
  ]

  insert_all-sorted : (l acc : List A) → insert_all le (sorted le l) acc ≡ insert_all le l acc
  unfolding insert_all sorted
  insert_all-sorted [] acc = refl
  insert_all-sorted (x ∷ l) acc =
      insert_all-insert x (sorted le l) acc ∙ ap (insert le x) (insert_all-sorted l acc)

  insert-merge :
      (x : A) (xs ys : List A) → Before x xs → insert le x (merge le xs ys) ≡ merge le (x ∷ xs) ys
  unfolding insert merge
  insert-merge x [] [] b = refl
  insert-merge x (z ∷ zs) [] b = rw b.0
  insert-merge x [] (y ∷ ys) b = elim (Bool-cases (le x y)) [
    | inl e ↦ rw e
    | inr e ↦ rw e (ap (λ l. y ∷ l) (insert-merge x [] ys b))
  ]
  insert-merge x (z ∷ zs) (y ∷ ys) b = ground (arith, o.trans x z y, insert-merge x (z ∷ zs) ys b)

  insert_all-eq-merge : (xs ys : List A) → IsSorted le xs → insert_all le xs ys ≡ merge le xs ys
  unfolding insert_all
  insert_all-eq-merge [] ys s = unfold merge in refl
  insert_all-eq-merge (x ∷ xs) ys s =
      ap (insert le x) (insert_all-eq-merge xs ys (IsSorted-tail x xs s))
      ∙ insert-merge x xs ys (IsSorted-Before x xs s)

  insert_all-append :
      (xs ys acc : List A) → insert_all le (xs ++ ys) acc ≡ insert_all le xs (insert_all le ys acc)
  unfolding insert_all
  insert_all-append [] ys acc = refl
  insert_all-append (x ∷ xs) ys acc = ap (insert le x) (insert_all-append xs ys acc)

  sorted-append : (xs ys : List A) → sorted le (xs ++ ys) ≡ merge le (sorted le xs) (sorted le ys)
  unfolding sorted
  sorted-append xs ys =
      insert_all-append xs ys []
      ∙ sym (insert_all-sorted xs (sorted le ys))
      ∙ insert_all-eq-merge (sorted le xs) (sorted le ys) (sorted-IsSorted xs)

  -- The first `k` of the parts' first `k` are the first `k` of the whole.
  pub take-sorted-concat_map {κ} :
      {B : Type κ} (k : ℕ) (f : B → List A) (bs : List B)
      → take k (sorted le (concat_map (λ b. take k (sorted le (f b))) bs))
        ≡ take k (sorted le (concat_map f bs))
  take-sorted-concat_map k f [] = refl
  take-sorted-concat_map k f (b ∷ bs) =
      let cut = concat_map (λ c. take k (sorted le (f c))) bs in
      let whole = concat_map f bs in
      let here = sorted le (f b) in
      rw (sorted-append (take k here) cut) (
        rw (sorted-append (f b) whole) (
          rw (sorted_of_sorted (take k here) (IsSorted-take k here (sorted-IsSorted (f b)))) (
            take-merge_left le k k here (sorted le cut) (omega arith)
            ∙ sym (take-merge_right le k k here (sorted le cut) (omega arith))
            ∙ ap (λ l. take k (merge le here l)) (take-sorted-concat_map k f bs)
            ∙ take-merge_right le k k here (sorted le whole) (omega arith))))
