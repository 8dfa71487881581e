-- ===== src/Index/Columns.antt =====
-- The columns of a corpus, and how they follow the changes of the corpus.
use pysearch.Base.{
  ℕ, zero, suc, ◌+◌, Str, Dict, true, false, some, List, [], ◌∷◌, ◌++◌, ◌≡◌, refl, ap, sym, ◌∙◌,
  lookup, member, remove, keys, values, Distinct, length, sum, if◌then◌else◌, ◌=ₛ◌, =ₛ_iff, arith,
  inl, inr, Bool-cases, remove_absent, lookup-cons, member-cons, remove-cons, remove-append,
  member-append, member-eq-contains, lookup-append_absent, lookup_absent,
}
use mathlib.Core.Option
use mathlib.Core.List.{append_assoc}
use pysearch.Index.{or_empty}
use pysearch.Index.Corpus.{Corpus, count, map_values, entry, column, nonempty}
use pysearch.Index.Counting.{positive}

module _ {ℓ κ} {V : Type ℓ} {W : Type κ} (f : V → W) where
  pub map_values-append : (m n : Dict V) → map_values f (m ++ n) ≡ map_values f m ++ map_values f n
  map_values-append [] n = refl
  map_values-append ((k, v) ∷ m) n = ap (λ l. (k, f v) ∷ l) (map_values-append m n)

  pub map_values-remove :
      (k : Str) (m : Dict V) → map_values f (remove k m) ≡ remove k (map_values f m)
  unfolding remove
  map_values-remove k [] = refl
  map_values-remove k ((j, v) ∷ m) = elim (Bool-cases (j =ₛ k)) [
    | inl e ↦ rw e (map_values-remove k m)
    | inr e ↦ rw e (ap (λ l. (j, f v) ∷ l) (map_values-remove k m))
  ]

  pub keys-map_values : (m : Dict V) → keys (map_values f m) ≡ keys m
  keys-map_values [] = refl
  keys-map_values ((k, v) ∷ m) = ap (λ l. k ∷ l) (keys-map_values m)

  pub member-map_values : (k : Str) (m : Dict V) → member k (map_values f m) ≡ member k m
  unfolding member
  member-map_values k [] = refl
  member-map_values k ((j, v) ∷ m) = rw (member-map_values k m)

  pub lookup-map_values :
      (k : Str) (m : Dict V) → lookup k (map_values f m) ≡ Option.map f (lookup k m)
  unfolding lookup
  lookup-map_values k [] = refl
  lookup-map_values k ((j, v) ∷ m) = elim (Bool-cases (j =ₛ k)) [
    | inl e ↦ rw e
    | inr e ↦ rw e (lookup-map_values k m)
  ]

  pub length-map_values : (m : Dict V) → length (map_values f m) ≡ length m
  length-map_values [] = refl
  length-map_values ((k, v) ∷ m) = ap suc (length-map_values m)

pub values-append {ℓ} : {V : Type ℓ} (m n : Dict V) → values (m ++ n) ≡ values m ++ values n
values-append [] n = refl
values-append ((k, v) ∷ m) n = ap (λ l. v ∷ l) (values-append m n)

pub or_empty-nonempty {ℓ} : {V : Type ℓ} (m : Dict V) → or_empty (nonempty m) ≡ m
or_empty-nonempty [] = refl
or_empty-nonempty (x ∷ m) = refl

pub nonempty-snoc {ℓ} :
    {V : Type ℓ} (m : Dict V) (x : Str × V) → nonempty (m ++ x ∷ []) ≡ some (m ++ x ∷ [])
nonempty-snoc [] x = refl
nonempty-snoc (y ∷ m) x = refl

-- The sum of the values, less the one that is removed.
pub sum-remove :
    (k : Str) (m : Dict ℕ) (n : ℕ)
    → Distinct (keys m)
    → lookup k m ≡ some n
    → sum (values (remove k m)) + n ≡ sum (values m)
unfolding remove lookup
sum-remove k [] n d h = cc
sum-remove k ((j, v) ∷ m) n d h = elim (Bool-cases (j =ₛ k)) [
  | inl e ↦ ground (arith, =ₛ_iff j k, remove_absent k m, member-eq-contains k m)
  | inr e ↦ rw e (ground (arith, sum-remove k m n))
]

module _ (term : Str) where
  pub column-append : (c b : Corpus) → column term (c ++ b) ≡ column term c ++ column term b
  unfolding column
  column-append [] b = refl
  column-append ((j, tokens) ∷ c) b =
      ap (λ l. entry j (count term tokens) ++ l) (column-append c b)
      ∙ sym (append_assoc (entry j (count term tokens)) (column term c) (column term b))

  remove-entry : (k j : Str) (n : ℕ) → remove k (entry j n) ≡ (if j =ₛ k then [] else entry j n)
  unfolding remove
  remove-entry k j zero = ground arith
  remove-entry k j (suc n) = ground arith

  member-entry : (k j : Str) (n : ℕ) → (j =ₛ k) ≡ false → member k (entry j n) ≡ false
  unfolding member
  member-entry k j zero e = refl
  member-entry k j (suc n) e = rw e

  pub column-remove : (k : Str) (c : Corpus) → column term (remove k c) ≡ remove k (column term c)
  unfolding column
  column-remove k [] = unfold remove in refl
  column-remove k ((j, tokens) ∷ c) =
      let here = entry j (count term tokens) in
      let ih = column-remove k c in
      rw
        (
          remove-append k here (column term c),
          remove-entry k j (count term tokens),
          remove-cons k j,
        )
        (elim (Bool-cases (j =ₛ k)) [ inl e ↦ rw e ih | inr e ↦ rw e (ap (λ l. here ++ l) ih) ])

  pub column_absent : (k : Str) (c : Corpus) → member k c ≡ false → member k (column term c) ≡ false
  unfolding column
  column_absent k [] h = unfold member in refl
  column_absent k ((j, tokens) ∷ c) h =
      let here = entry j (count term tokens) in
      ground (
        arith,
        member-append k here (column term c),
        member-entry k j (count term tokens),
        member-cons k j tokens c,
        column_absent k c,
      )

  lookup-entry :
      (k j : Str) (n : ℕ) (m : Dict ℕ)
      → (j =ₛ k) ≡ true
      → member k m ≡ false
      → lookup k (entry j n ++ m) ≡ positive n
  lookup-entry k j zero m e h = lookup_absent k m h
  lookup-entry k j (suc n) m e h = rw (lookup-cons k j, e)

  -- A document is in the column exactly with its count, if that is not zero.
  pub lookup-column :
      (k : Str) (c : Corpus) (tokens : List Str)
      → Distinct (keys c)
      → lookup k c ≡ some tokens
      → lookup k (column term c) ≡ positive (count term tokens)
  unfolding column
  lookup-column k [] tokens d h = unfold lookup in cc
  lookup-column k ((j, us) ∷ c) tokens d h = elim (Bool-cases (j =ₛ k)) [
    | inl e ↦
        let same : us ≡ tokens = ground (arith, lookup-cons k j us c) in
        let gone : member k c ≡ false = ground (arith, =ₛ_iff j k, member-eq-contains k c) in
        lookup-entry k j (count term us) (column term c) e (column_absent k c gone)
        ∙ ap (λ l. positive (count term l)) same
    | inr e ↦
        lookup-append_absent k (entry j (count term us)) (column term c)
          (member-entry k j (count term us) e)
        ∙ lookup-column k c tokens d.1 (ground (arith, lookup-cons k j us c))
  ]

pub Distinct-column :
    (term : Str) (c : Corpus) → Distinct (keys c) → Distinct (keys (column term c))
unfolding column
Distinct-column term [] d = tt
Distinct-column term ((j, tokens) ∷ c) d = add (count term tokens) (Distinct-column term c d.1)
  where
    add : (n : ℕ) → Distinct (keys (column term c)) → Distinct (keys (entry j n ++ column term c))
    add zero ih = ih
    add (suc n) ih =
        (rw (← member-eq-contains) (column_absent term j c (member-eq-contains j c ∙ d.0)), ih)
