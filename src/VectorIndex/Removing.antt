-- ===== src/VectorIndex/Removing.antt =====
-- Removing a vector: the last row moves into the hole, and no other document's vector changes.
use pysearch.Base.{
  ℕ, ◌-◌, Str, true, false, some, ◌≡◌, ◌≢◌, sym, ◌∙◌, lookup, member, lookup_absent, lookup_present,
  remove, length, get_elem?, pop, ◌==◌, ==_iff, ◌=ₛ◌, =ₛ_iff, =ₛ_refl, lookup-remove, arith, inl,
  inr, Bool-cases,
}
use pysearch.Float.{Float}
use pysearch.VectorIndex.{Vectors, VectorIndex, vector_for, fill_hole, remove_vector}
use pysearch.VectorIndex.Rows.{get_elem?-bound, length-pop, get_elem?-pop, get_elem?-present}
use pysearch.VectorIndex.Adding.{IsIndexed}
use pysearch.VectorIndex.Moving.{differ, Removed, below, apart, elsewhere, filled, filled-Removed}

module _ {fl : Float} (vs : Vectors fl) (d : Str) (index : VectorIndex vs) (y : IsIndexed vs index)
    (p : ℕ) (here : lookup d index.positions ≡ some p) where
  abbrev end : ℕ
  end = length index.ids - 1

  -- The last document is the removed one.
  abbrev cut : VectorIndex vs
  cut = record index { ids = pop index.ids; positions = remove d index.positions }

  cut-Removed : p ≡ end → Removed vs d index cut
  unfolding vector_for
  cut-Removed at_end = (
    record {
      position = λ j q found. position_after j q found;
      placed = λ j q found. placed_after j q found;
      rows = omega (arith, y.rows, length-pop index.ids);
    },
    rw (vector_for, lookup-remove, =ₛ_refl),
    λ j other. unchanged j other,
  )
    where
      position_after :
          (j : Str) (q : ℕ)
          → lookup j (remove d index.positions) ≡ some q
          → get_elem? (pop index.ids) q ≡ some j
      position_after j q found = elim (Bool-cases (d =ₛ j)) [
        | inl e ↦ let g = rw (lookup-remove, e) at found in absurd cc
        | inr e ↦
            let known : lookup j index.positions ≡ some q = rw (lookup-remove, e) at found in
            let at_q = y.position j q known in
            let other = apart vs d index y p here j q (differ d j e) at_q in
            get_elem?-pop index.ids q
              (omega (arith, get_elem?-bound index.ids q j at_q, other, at_end))
            ∙ at_q
      ]

      placed_after :
          (j : Str) (q : ℕ)
          → get_elem? (pop index.ids) q ≡ some j
          → lookup j (remove d index.positions) ≡ some q
      placed_after j q found =
          let bound = get_elem?-bound (pop index.ids) q j found in
          let at_q : get_elem? index.ids q ≡ some j =
            sym (get_elem?-pop index.ids q (omega (arith, bound, length-pop index.ids))) ∙ found in
          let other : p ≢ q = λ e. omega (arith, e, bound, length-pop index.ids, at_end) in
          rw (lookup-remove, elsewhere vs d index y p here j q other at_q) (y.placed j q at_q)

      unchanged : (j : Str) → j ≢ d → vector_for vs cut j ≡ vector_for vs index j
      unchanged j other = elim (Bool-cases (d =ₛ j)) [
        | inl e ↦ absurd (other (sym ((=ₛ_iff d j).0 e)))
        | inr e ↦ unfold vector_for in rw (vector_for, lookup-remove, e)
      ]

  when_present :
      (next : VectorIndex vs) × (remove_vector vs d index ≡ (next, true)) × Removed vs d index next
  when_present = elim (Bool-cases (p == end)) [
    | inl e ↦
        (cut, unfold remove_vector in rw (remove_vector, here, e), cut-Removed ((==_iff p end).0 e))
    | inr e ↦
        let inside : p ≢ end = λ same. ground (arith, ==_iff p end) in
        let (moved, name_last) =
          get_elem?-present index.ids end (omega (arith, below vs d index y p here)) in
        let (row, row_last) =
          get_elem?-present index.matrix end (omega (arith, below vs d index y p here, y.rows)) in
        (
          filled vs d index y p here moved row inside name_last row_last,
          unfold remove_vector in
              unfold fill_hole in rw (remove_vector, here, e, fill_hole, name_last, row_last),
          filled-Removed vs d index y p here moved row inside name_last row_last,
        )
  ]

-- On an index in which positions and identifiers agree and every document has a row: removing a
-- document that is there reports it, and leaves an index of the same kind, in which the document
-- has no vector and every other document has the vector it had. Removing a document that is not
-- there changes nothing and reports that.
pub remove_vector-Removed :
    {fl : Float} (vs : Vectors fl) (d : Str) (index : VectorIndex vs) (y : IsIndexed vs index)
    → (member d index.positions ≡ false → remove_vector vs d index ≡ (index, false))
      × (member d index.positions ≡ true
          → (next : VectorIndex vs) × (remove_vector vs d index ≡ (next, true))
            × Removed vs d index next)
unfolding remove_vector
remove_vector-Removed vs d index y = (
  λ gone. rw (remove_vector, lookup_absent d index.positions gone),
  λ there.
      let (p, here) = lookup_present d index.positions there in when_present vs d index y p here,
)
