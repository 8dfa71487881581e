-- ===== src/Examples/VectorRows.antt =====
-- The vector index, run.
use pysearch.Base.{
  ℕ, zero, suc, Str, ◌≡◌, [], ◌∷◌, some, true, false, lookup, member, get_elem?, ok, err, arith,
  =ₛ_iff, ◌=ₛ◌, Bool-cases, inl, inr, ap, subst, vector_index_error, put, refl, sym, ◌∙◌,
}
use pysearch.VectorIndex.{VectorIndex, add_vector, remove_vector, grow_if_needed}
use pysearch.VectorIndex.Moving.{Removed}
use pysearch.VectorIndex.Removing.{remove_vector-Removed}
use pysearch.VectorIndex.Adding.{IsIndexed, Added, add_vector-Added}
use pysearch.Examples.{numbers, first_id, second_id}

abbrev one_vector : VectorIndex numbers
one_vector = record {
  dimension = 1;
  ids = first_id ∷ [];
  positions = (first_id, 0) ∷ [];
  matrix = 7 ∷ [];
}

one_vector_position :
    (d : Str) (p : ℕ) → lookup d one_vector.positions ≡ some p → get_elem? one_vector.ids p ≡ some d
unfolding lookup
one_vector_position d p h = elim (Bool-cases (first_id =ₛ d)) [
  | inl same ↦
      let name : first_id ≡ d = (=ₛ_iff first_id d).0 same in
      let found : some 0 ≡ some p = rw same at h in
      let place : 0 ≡ p = cc in
      subst (λ q. get_elem? one_vector.ids q ≡ some d) place (ap some name)
  | inr other ↦ let gone = rw other at h in absurd cc
]

one_vector_placed :
    (d : Str) (p : ℕ) → get_elem? one_vector.ids p ≡ some d → lookup d one_vector.positions ≡ some p
unfolding lookup
one_vector_placed d zero h = let name : first_id ≡ d = cc in rw ((=ₛ_iff first_id d).1 name)
one_vector_placed d (suc p) h = cc

one_vector-IsIndexed : IsIndexed numbers one_vector
one_vector-IsIndexed = record {
  position = one_vector_position;
  placed = one_vector_placed;
  rows = omega arith;
}

add_vector-Added_example :
    (numbers.accepts 1 9 ≡ true
      → (next : VectorIndex numbers) × (add_vector numbers second_id 9 one_vector ≡ ok next)
        × Added numbers second_id 9 one_vector one_vector-IsIndexed next)
    × (numbers.accepts 1 9 ≡ false
        → add_vector numbers second_id 9 one_vector ≡ err vector_index_error)
add_vector-Added_example = add_vector-Added numbers second_id 9 one_vector one_vector-IsIndexed

abbrev two_vectors : VectorIndex numbers
two_vectors = record {
  dimension = 1;
  ids = first_id ∷ second_id ∷ [];
  positions = (first_id, 0) ∷ (second_id, 1) ∷ [];
  matrix = 7 ∷ 9 ∷ [];
}

second_added : add_vector numbers second_id 9 one_vector ≡ ok two_vectors
unfolding add_vector grow_if_needed lookup put ◌=ₛ◌
second_added = refl

two_vectors-IsIndexed : IsIndexed numbers two_vectors
two_vectors-IsIndexed =
    let (next, added, (indexed, ours, others)) =
      (add_vector-Added numbers second_id 9 one_vector one_vector-IsIndexed).0 refl in
    let same : next ≡ two_vectors = let g = sym added ∙ second_added in cc in
    subst (IsIndexed numbers) same indexed

remove_vector-Removed_example :
    (member first_id two_vectors.positions ≡ false
      → remove_vector numbers first_id two_vectors ≡ (two_vectors, false))
    × (member first_id two_vectors.positions ≡ true
        → (next : VectorIndex numbers) × (remove_vector numbers first_id two_vectors ≡ (next, true))
          × Removed numbers first_id two_vectors next)
remove_vector-Removed_example =
    remove_vector-Removed numbers first_id two_vectors two_vectors-IsIndexed
