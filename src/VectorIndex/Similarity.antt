-- ===== src/VectorIndex/Similarity.antt =====
-- What a search of the vector index compares: every document that has a vector, once, with the dot
-- product of its vector and the query.
use mathlib.Core.Option
use pysearch.Base.{
  ℕ, zero, suc, ◌≤◌, Str, Dict, true, false, none, some, List, [], ◌∷◌, ◌≡◌, ◌≢◌, ◌⊎◌, refl, ap,
  sym, subst, lookup, contains, keys, Distinct, length, take, sorted, get_elem?, ltb, ◌=ₛ◌, =ₛ_iff,
  arith, inl, inr, Bool-cases, Option-cases, ok, take_nil,
}
use pysearch.Float.{Float}
use pysearch.Results.{item_le}
use pysearch.VectorIndex.{Vectors, VectorIndex, vector_for, similarities, search_vectors}
use pysearch.VectorIndex.Rows.{get_elem?-present, get_elem?-bound}
use pysearch.VectorIndex.Adding.{IsIndexed}

empty_or_not :
    {A : Type 0} (xs : List A) → (xs ≡ []) ⊎ ((x : A) × (rest : List A) × (xs ≡ x ∷ rest))
empty_or_not [] = inl refl
empty_or_not (x ∷ xs) = inr (x, xs, refl)

module _ {fl : Float} (vs : Vectors fl) (query : vs.V) where
  -- The items that a search of an index ranks.
  abbrev pub compared : VectorIndex vs → Dict fl.F
  compared index = similarities vs query index.ids index.matrix

  keys-similarities :
      (ids : List Str) (rows : List vs.V)
      → length ids ≤ length rows
      → keys (similarities vs query ids rows) ≡ ids
  unfolding similarities
  keys-similarities [] rows h = refl
  keys-similarities (d ∷ ids) [] h = absurd (omega arith)
  keys-similarities (d ∷ ids) (row ∷ rows) h =
      ap (λ l. d ∷ l) (keys-similarities ids rows (omega arith))

  pub length-similarities :
      (ids : List Str) (rows : List vs.V)
      → length ids ≤ length rows
      → length (similarities vs query ids rows) ≡ length ids
  unfolding similarities
  length-similarities [] rows h = refl
  length-similarities (d ∷ ids) [] h = absurd (omega arith)
  length-similarities (d ∷ ids) (row ∷ rows) h = ap suc (length-similarities ids rows (omega arith))

  similarity_at :
      (ids : List Str) (rows : List vs.V) (d : Str) (p : ℕ) (row : vs.V)
      → ((q : ℕ) → get_elem? ids q ≡ some d → q ≡ p)
      → get_elem? ids p ≡ some d
      → get_elem? rows p ≡ some row
      → lookup d (similarities vs query ids rows) ≡ some (vs.dot row query)
  unfolding similarities lookup
  similarity_at [] rows d p row once here at_p = absurd cc
  similarity_at (j ∷ ids) [] d p row once here at_p = absurd cc
  similarity_at (j ∷ ids) (r ∷ rows) d zero row once here at_p =
      let name : j ≡ d = cc in let same : r ≡ row = cc in rw ((=ₛ_iff j d).1 name, same)
  similarity_at (j ∷ ids) (r ∷ rows) d (suc p) row once here at_p = elim (Bool-cases (j =ₛ d)) [
    | inl e ↦
        let first : zero ≡ suc p = once zero (ap some ((=ₛ_iff j d).0 e)) in
        absurd (omega (arith, first))
    | inr e ↦ rw e (
        similarity_at ids rows d p row (λ q h. let next = once (suc q) h in omega (arith, next))
          here at_p)
  ]

  similarity_absent :
      (ids : List Str) (rows : List vs.V) (d : Str)
      → ((q : ℕ) → get_elem? ids q ≢ some d)
      → lookup d (similarities vs query ids rows) ≡ none
  unfolding similarities lookup
  similarity_absent [] rows d gone = refl
  similarity_absent (j ∷ ids) [] d gone = refl
  similarity_absent (j ∷ ids) (r ∷ rows) d gone = elim (Bool-cases (j =ₛ d)) [
    | inl e ↦ absurd (gone zero (ap some ((=ₛ_iff j d).0 e)))
    | inr e ↦ rw e (similarity_absent ids rows d (λ q. gone (suc q)))
  ]

  contains-position :
      (ids : List Str) (d : Str) → contains d ids ≡ true → (q : ℕ) × (get_elem? ids q ≡ some d)
  unfolding contains
  contains-position [] d h = cc
  contains-position (j ∷ ids) d h = elim (Bool-cases (j =ₛ d)) [
    | inl e ↦ (zero, ap some ((=ₛ_iff j d).0 e))
    | inr e ↦ let (q, found) = contains-position ids d (rw e at h) in (suc q, found)
  ]

  once_each-Distinct :
      (ids : List Str)
      → ((d : Str) (p q : ℕ) → get_elem? ids p ≡ some d → get_elem? ids q ≡ some d → p ≡ q)
      → Distinct ids
  once_each-Distinct [] once = tt
  once_each-Distinct (d ∷ ids) once = (
    elim (Bool-cases (contains d ids)) [
      | inr e ↦ e
      | inl e ↦
          let (q, found) = contains-position ids d e in
          let same : zero ≡ suc q = once d zero (suc q) refl found in absurd (omega (arith, same))
    ],
    once_each-Distinct ids
        λ j p q h k. let same = once j (suc p) (suc q) h k in omega (arith, same),
  )

  module _ (index : VectorIndex vs) (y : IsIndexed vs index) where
    pub compared-Distinct : Distinct (keys (compared index))
    compared-Distinct = subst Distinct (sym (keys-similarities index.ids index.matrix y.rows)) (
        once_each-Distinct index.ids
          λ d p q h k. let at_p = y.placed d p h in let at_q = y.placed d q k in cc)

    pub lookup-compared :
        (d : Str)
        → lookup d (compared index) ≡ Option.map (λ v. vs.dot v query) (vector_for vs index d)
    unfolding vector_for
    lookup-compared d = elim (Option-cases (lookup d index.positions)) [
      | inl gone ↦
          rw (vector_for, gone)
            (similarity_absent index.ids index.matrix d λ q h. let found = y.placed d q h in cc)
      | inr (p, here) ↦
          let at_p = y.position d p here in
          let (row, found) =
            get_elem?-present index.matrix p
              (omega (arith, get_elem?-bound index.ids p d at_p, y.rows)) in
          rw (vector_for, here, found)
            (similarity_at index.ids index.matrix d p row (λ q h. let at_q = y.placed d q h in cc)
              at_p found)
    ]

  -- A search for at least one result, with a query that the index accepts, ranks all of them.
  pub search_vectors-ok :
      (limit : ℕ) (index : VectorIndex vs)
      → ltb limit 1 ≡ false
      → vs.accepts index.dimension query ≡ true
      → search_vectors vs query limit index ≡ ok (take limit (sorted (item_le fl) (compared index)))
  unfolding search_vectors similarities sorted
  search_vectors-ok limit index enough fits = elim (empty_or_not index.ids) [
    | inl none_there ↦ rw (enough, none_there) (ap ok (sym (take_nil limit)))
    | inr (first, rest, some_there) ↦
        rw (enough, some_there, fits)
          (ap
            (λ ids. ok (take limit (sorted (item_le fl) (similarities vs query ids index.matrix))))
            some_there)
  ]
