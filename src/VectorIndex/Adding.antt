-- ===== src/VectorIndex/Adding.antt =====
-- Adding a vector: it is the document's vector afterwards, and no other document's changes.
use pysearch.Base.{
  ℕ, ◌+◌, ◌-◌, ◌*◌, ◌≤◌, ◌<◌, Str, true, false, none, some, List, [], ◌∷◌, ◌++◌, ◌≡◌, ◌≢◌, ap, sym,
  subst, ◌∙◌, lookup, put, length, get_elem?, set, replicate, ltb, leb, ◌=ₛ◌, =ₛ_iff, =ₛ_refl,
  lookup-put, arith, inl, inr, Bool-cases, Option-cases, ok, err, length-append, vector_index_error,
}
use pysearch.VectorIndex.Rows.{
  length-set, length-replicate, get_elem?-set, get_elem?-set_other, get_elem?-append,
  get_elem?-last, get_elem?-bound,
}
use Prim.Native.Nat.{max}
use pysearch.Float.{Float}
use pysearch.VectorIndex.{Vectors, VectorIndex, vector_for, new_vectors, grow_if_needed, add_vector}

module _ {fl : Float} (vs : Vectors fl) where
  -- The positions are those of the identifiers, which name each document once, and every one of
  -- them has a row.
  pub record IsIndexed (index : VectorIndex vs) : Type 0 where
    pub position :
        (d : Str) (p : ℕ) → lookup d index.positions ≡ some p → get_elem? index.ids p ≡ some d
    pub placed :
        (d : Str) (p : ℕ) → get_elem? index.ids p ≡ some d → lookup d index.positions ≡ some p
    pub rows : length index.ids ≤ length index.matrix

  pub new_vectors-IsIndexed : (dimension : ℕ) → IsIndexed (new_vectors vs dimension)
  unfolding new_vectors lookup
  new_vectors-IsIndexed dimension = record {
    position = λ d p h. cc;
    placed = λ d p h. cc;
    rows = omega arith;
  }

  length-grow :
      (required : ℕ) (matrix : List vs.V) → required ≤ length (grow_if_needed vs required matrix)
  unfolding grow_if_needed
  length-grow required matrix = elim (Bool-cases (leb required (length matrix))) [
    | inl e ↦ rw e (ground arith)
    | inr e ↦
        let more = max required (length matrix * 2) - length matrix in
        rw (e, length-append matrix (replicate more vs.zero_row), length-replicate more vs.zero_row)
          (ground arith)
  ]

  grow-keeps :
      (required i : ℕ) (matrix : List vs.V)
      → i < length matrix
      → get_elem? (grow_if_needed vs required matrix) i ≡ get_elem? matrix i
  unfolding grow_if_needed
  grow-keeps required i matrix h = elim (Bool-cases (leb required (length matrix))) [
    | inl e ↦ rw e
    | inr e ↦ rw (e, get_elem?-append matrix _ i h)
  ]

  module _ (d : Str) (v : vs.V) (index : VectorIndex vs) (y : IsIndexed index) where
    -- What an accepted vector makes of the index.
    abbrev pub Added : VectorIndex vs → Type 0
    Added next =
        IsIndexed next
        × (vector_for vs next d ≡ some v)
        × ((j : Str) → j ≢ d → vector_for vs next j ≡ vector_for vs index j)

    abbrev replaced : ℕ → VectorIndex vs
    replaced p = record index { matrix = set index.matrix p v }

    replaced-Added : (p : ℕ) → lookup d index.positions ≡ some p → Added (replaced p)
    unfolding vector_for
    replaced-Added p e = (
      record {
        position = y.position;
        placed = y.placed;
        rows = omega (arith, y.rows, length-set index.matrix p v);
      },
      rw (vector_for, e) (get_elem?-set index.matrix p v (omega (arith, here, y.rows))),
      λ j other. elim (Option-cases (lookup j index.positions)) [
        | inl f ↦ rw (vector_for, f)
        | inr (q, f) ↦
            rw (vector_for, f)
              (get_elem?-set_other index.matrix p q v (λ same. other (named j q f same)))
      ],
    )
      where
        here : p < length index.ids
        here = get_elem?-bound index.ids p d (y.position d p e)

        named : (j : Str) (q : ℕ) → lookup j index.positions ≡ some q → p ≡ q → j ≡ d
        named j q f same =
            let at_p : get_elem? index.ids p ≡ some d = y.position d p e in
            let at_q : get_elem? index.ids q ≡ some j = y.position j q f in cc

    abbrev count : ℕ
    count = length index.ids

    abbrev appended : VectorIndex vs
    appended = record index {
      ids = index.ids ++ d ∷ [];
      positions = put d count index.positions;
      matrix = set (grow_if_needed vs (count + 1) index.matrix) count v;
    }

    module _ (e : lookup d index.positions ≡ none) where
      position_after :
          (j : Str) (p : ℕ)
          → lookup j (put d count index.positions) ≡ some p
          → get_elem? (index.ids ++ d ∷ []) p ≡ some j
      position_after j p h = elim (Bool-cases (d =ₛ j)) [
        | inl same ↦
            let name : d ≡ j = (=ₛ_iff d j).0 same in
            let found : some count ≡ some p = rw (lookup-put, same) at h in
            let place : count ≡ p = cc in
            subst (λ q. get_elem? (index.ids ++ d ∷ []) q ≡ some j) place
              (get_elem?-last index.ids d ∙ ap some name)
        | inr other ↦
            let known : lookup j index.positions ≡ some p = rw (lookup-put, other) at h in
            get_elem?-append index.ids (d ∷ []) p
              (get_elem?-bound index.ids p j (y.position j p known))
            ∙ y.position j p known
      ]

      placed_after :
          (j : Str) (p : ℕ)
          → get_elem? (index.ids ++ d ∷ []) p ≡ some j
          → lookup j (put d count index.positions) ≡ some p
      placed_after j p h = elim (Bool-cases (ltb p count)) [
        | inl old ↦
            let before : get_elem? index.ids p ≡ some j =
              sym (get_elem?-append index.ids (d ∷ []) p (ground arith)) ∙ h in
            let known : lookup j index.positions ≡ some p = y.placed j p before in
            elim (Bool-cases (d =ₛ j)) [
              | inl same ↦
                  let name : d ≡ j = (=ₛ_iff d j).0 same in
                  absurd (cc (ap (λ k. lookup k index.positions) name))
              | inr other ↦ rw (lookup-put, other) known
            ]
        | inr new ↦
            let below : p < length (index.ids ++ d ∷ []) =
              get_elem?-bound (index.ids ++ d ∷ []) p j h in
            let place : p ≡ count = ground (arith, length-append index.ids (d ∷ [])) in
            let last =
              subst (λ q. get_elem? (index.ids ++ d ∷ []) q ≡ some d) (sym place)
                (get_elem?-last index.ids d) in
            let name : d ≡ j = cc in
            let same : (d =ₛ j) ≡ true = (=ₛ_iff d j).1 name in
            rw (lookup-put, same) (ap some (sym place))
      ]

      appended-Added : Added appended
      unfolding vector_for
      appended-Added = (
        record {
          position = position_after;
          placed = placed_after;
          rows = omega (
            arith,
            length-append index.ids (d ∷ []),
            length-grow (count + 1) index.matrix,
            length-set (grow_if_needed vs (count + 1) index.matrix) count v,
          );
        },
        rw (vector_for, lookup-put, =ₛ_refl)
            (get_elem?-set (grow_if_needed vs (count + 1) index.matrix) count v
              (omega (arith, length-grow (count + 1) index.matrix))),
        λ j other. unchanged j other,
      )
        where
          unchanged : (j : Str) → j ≢ d → vector_for vs appended j ≡ vector_for vs index j
          unchanged j other = elim (Bool-cases (d =ₛ j)) [
            | inl same ↦ absurd (other (sym ((=ₛ_iff d j).0 same)))
            | inr differs ↦ elim (Option-cases (lookup j index.positions)) [
              | inl f ↦ unfold vector_for in rw (vector_for, lookup-put, differs, f)
              | inr (q, f) ↦
                  let here = get_elem?-bound index.ids q j (y.position j q f) in
                  unfold vector_for in
                  rw (vector_for, lookup-put, differs, f)
                    (get_elem?-set_other (grow_if_needed vs (count + 1) index.matrix) count q v
                        (λ same. omega (arith, same, here))
                      ∙ grow-keeps (count + 1) q index.matrix (omega (arith, here, y.rows)))
            ]
          ]

    -- On an index in which positions and identifiers agree and every document has a row, adding a
    -- vector that is accepted returns an index of the same kind, in which the document has this
    -- vector and every other document has the vector it had. Any other vector is refused.
    pub add_vector-Added :
        (vs.accepts index.dimension v ≡ true
          → (next : VectorIndex vs) × (add_vector vs d v index ≡ ok next) × Added next)
        × (vs.accepts index.dimension v ≡ false → add_vector vs d v index ≡ err vector_index_error)
    unfolding add_vector
    add_vector-Added = (accepted, λ refused. rw refused)
      where
        accepted :
            vs.accepts index.dimension v ≡ true
            → (next : VectorIndex vs) × (add_vector vs d v index ≡ ok next) × Added next
        accepted a = elim (Option-cases (lookup d index.positions)) [
          | inr (p, e) ↦ (replaced p, unfold add_vector in rw (a, e), replaced-Added p e)
          | inl e ↦ (appended, unfold add_vector in rw (a, e), appended-Added e)
        ]
