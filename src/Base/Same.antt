-- ===== src/Base/Same.antt =====
-- Dictionaries that hold the same entries, in whatever order: what is summed over their items is
-- the same, and sorting by an order that decides different keys makes them equal.
use Prim.Native.Nat.{ℕ, ◌+◌}
use mathlib.Core.Path.{◌≡◌, refl, sym, ◌∙◌}
use mathlib.Core.Logic.{inl, inr}
use mathlib.Core.Bool.{Bool, true, false}
use mathlib.Core.Option.{some}
use mathlib.Core.List.{[], ◌∷◌, map}
use native.Mathlib.Omega.{arith}
use pysearch.Base.Tests.{Bool-cases}
use pysearch.Base.Lists.{length, sum}
use pysearch.Base.Text.{Str, ◌=ₛ◌, =ₛ_iff, =ₛ_refl}
use pysearch.Base.Maps.{
  Dict, Distinct, keys, lookup, member, remove, lookup-cons, lookup-remove, lookup_absent,
  member-eq-contains, remove_absent, Distinct-remove,
}
use pysearch.Base.Ranked.{IsPreorder, sorted, IsSorted}
use pysearch.Base.Merging.{IsSorted-tail, sorted-IsSorted}
use pysearch.Base.Rows.{lookup-sorted, Distinct-sorted}

module _ {ℓ} {V : Type ℓ} where
  pub record SameItems (m n : Dict V) : Type ℓ where
    pub left : Distinct (keys m)
    pub right : Distinct (keys n)
    pub agree : (d : Str) → lookup d m ≡ lookup d n

  sum_removed :
      (f : Str × V → ℕ) (k : Str) (v : V) (m : Dict V)
      → Distinct (keys m)
      → lookup k m ≡ some v
      → sum (map f (remove k m)) + f (k, v) ≡ sum (map f m)
  unfolding remove lookup
  sum_removed f k v [] d h = cc
  sum_removed f k v ((j, w) ∷ m) d h = elim (Bool-cases (j =ₛ k)) [
    | inl e ↦
        let same : j ≡ k = (=ₛ_iff j k).0 e in
        let value : w ≡ v = ground arith in
        let gone : member k m ≡ false = ground (arith, member-eq-contains k m) in
        rw (e, remove_absent k m gone, same, value) (omega arith)
    | inr e ↦ rw e (omega (arith, sum_removed f k v m d.1 (ground arith)))
  ]

  -- Any sum over the items is the same.
  pub sum-SameItems :
      (f : Str × V → ℕ) (m n : Dict V) → SameItems m n → sum (map f m) ≡ sum (map f n)
  sum-SameItems f [] [] h = refl
  sum-SameItems f [] ((k, v) ∷ n) h =
      absurd (let found = h.agree k in unfold lookup in ground (arith, =ₛ_refl k))
  sum-SameItems f ((k, v) ∷ m) n h =
      let gone : member k m ≡ false = member-eq-contains k m ∙ h.left.0 in
      let found : lookup k n ≡ some v = sym (h.agree k) ∙ rw (lookup-cons, =ₛ_refl) in
      let rest : SameItems m (remove k n) = record {
        left = h.left.1;
        right = Distinct-remove k n h.right;
        agree = λ d.
            rw lookup-remove
              (ground (arith, h.agree d, lookup-cons d k v m, =ₛ_iff k d, lookup_absent k m gone));
      } in
      omega (arith, sum_removed f k v n h.right found, sum-SameItems f m (remove k n) rest)

  length-sum : (m : Dict V) → length m ≡ sum (map (λ _. 1) m)
  length-sum [] = refl
  length-sum (x ∷ m) = omega (arith, length-sum m)

  pub length-SameItems : (m n : Dict V) → SameItems m n → length m ≡ length n
  length-SameItems m n h = length-sum m ∙ sum-SameItems (λ _. 1) m n h ∙ sym (length-sum n)

  module _ (le : Str × V → Str × V → Bool) (o : IsPreorder le)
      (decides : (x y : Str × V) → le x y ≡ true → le y x ≡ true → x.0 ≡ y.0) where
    -- The head of a sorted list goes before whatever a lookup finds in it.
    head_first :
        (x : Str × V) (m : Dict V) (d : Str) (v : V)
        → IsSorted le (x ∷ m)
        → lookup d m ≡ some v
        → le x (d, v) ≡ true
    unfolding lookup
    head_first x [] d v s h = cc
    head_first x ((j, w) ∷ m) d v s h = elim (Bool-cases (j =ₛ d)) [
      | inl e ↦
          let same : j ≡ d = (=ₛ_iff j d).0 e in
          let value : w ≡ v = ground arith in rw (← same, ← value) s.0
      | inr e ↦ o.trans x (j, w) (d, v) s.0 (head_first (j, w) m d v s.1 (ground arith))
    ]

    sorted_unique : (m n : Dict V) → IsSorted le m → IsSorted le n → SameItems m n → m ≡ n
    sorted_unique [] [] s t h = refl
    sorted_unique [] ((k, v) ∷ n) s t h =
        absurd (let found = h.agree k in unfold lookup in ground (arith, =ₛ_refl k))
    sorted_unique ((k, v) ∷ m) [] s t h =
        absurd (let found = h.agree k in unfold lookup in ground (arith, =ₛ_refl k))
    sorted_unique ((k, v) ∷ m) ((j, w) ∷ n) s t h = elim (Bool-cases (k =ₛ j)) [
      | inl e ↦
          let same : k ≡ j = (=ₛ_iff k j).0 e in
          let value : v ≡ w =
            ground (arith, h.agree j, lookup-cons j k v m, lookup-cons j j w n, =ₛ_refl j) in
          let rest : SameItems m n = record {
            left = h.left.1;
            right = h.right.1;
            agree = λ d. ground (
              arith,
              h.agree d,
              lookup-cons d k v m,
              lookup-cons d j w n,
              =ₛ_iff k d,
              lookup_absent k m (member-eq-contains k m ∙ h.left.0),
              lookup_absent j n (member-eq-contains j n ∙ h.right.0),
            );
          } in
          let tails =
            sorted_unique m n (IsSorted-tail o (k, v) m s) (IsSorted-tail o (j, w) n t) rest in
          rw (same, value, tails)
      | inr e ↦
          let there : lookup k n ≡ some v = ground (
            arith,
            h.agree k,
            lookup-cons k k v m,
            lookup-cons k j w n,
            =ₛ_refl k,
            =ₛ_iff j k,
            =ₛ_iff k j,
          ) in
          let back : lookup j m ≡ some w =
            ground (arith, h.agree j, lookup-cons j k v m, lookup-cons j j w n, =ₛ_refl j) in
          let same : k ≡ j =
            decides (k, v) (j, w) (head_first (k, v) m j w s back)
              (head_first (j, w) n k v t there) in
          absurd (ground (arith, =ₛ_iff k j))
    ]

  -- Sorting makes them equal.
  pub sorted-SameItems :
      (le : Str × V → Str × V → Bool) (o : IsPreorder le)
      → ((x y : Str × V) → le x y ≡ true → le y x ≡ true → x.0 ≡ y.0)
      → (m n : Dict V) → SameItems m n
      → sorted le m ≡ sorted le n
  sorted-SameItems le o decides m n h =
      sorted_unique le o decides (sorted le m) (sorted le n) (sorted-IsSorted o m)
        (sorted-IsSorted o n)
        (record {
          left = Distinct-sorted le m h.left;
          right = Distinct-sorted le n h.right;
          agree = λ d. lookup-sorted le d m h.left ∙ h.agree d ∙ sym (lookup-sorted le d n h.right);
        })
