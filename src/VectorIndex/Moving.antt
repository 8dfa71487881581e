-- ===== src/VectorIndex/Moving.antt =====
-- Removing a vector whose row is not the last: the last row moves into the hole.
use pysearch.Base.{
  ℕ, ◌+◌, ◌-◌, ◌<◌, Str, false, none, some, ◌≡◌, ◌≢◌, ap, sym, subst, ◌∙◌, lookup, put, remove,
  length, get_elem?, set, pop, ◌==◌, ==_iff, ◌=ₛ◌, =ₛ_iff, =ₛ_refl, lookup-put, lookup-remove,
  arith, inl, inr, Bool-cases, Option-cases,
}
use pysearch.Float.{Float}
use pysearch.VectorIndex.{Vectors, VectorIndex, vector_for}
use pysearch.VectorIndex.Rows.{
  length-set, get_elem?-set, get_elem?-set_other, get_elem?-bound, length-pop, get_elem?-pop,
}
use pysearch.VectorIndex.Adding.{IsIndexed}

pub differ : (d j : Str) → (d =ₛ j) ≡ false → d ≢ j
differ d j h e = ground (arith, =ₛ_iff d j)

-- What removing a vector that is there makes of the index.
abbrev pub Removed : {fl : Float} (vs : Vectors fl) → Str → VectorIndex vs → VectorIndex vs → Type 0
Removed vs d index next =
    IsIndexed vs next
    × (vector_for vs next d ≡ none)
    × ((j : Str) → j ≢ d → vector_for vs next j ≡ vector_for vs index j)

module _ {fl : Float} (vs : Vectors fl) (d : Str) (index : VectorIndex vs) (y : IsIndexed vs index)
    (p : ℕ) (here : lookup d index.positions ≡ some p) where
  abbrev pub last : ℕ
  last = length index.ids - 1

  pub below : p < length index.ids
  below = get_elem?-bound index.ids p d (y.position d p here)

  -- Another document is at another position.
  pub apart : (j : Str) (q : ℕ) → d ≢ j → get_elem? index.ids q ≡ some j → p ≢ q
  apart j q other at_q same =
      let at_p : get_elem? index.ids p ≡ some d = y.position d p here in other cc

  pub elsewhere : (j : Str) (q : ℕ) → p ≢ q → get_elem? index.ids q ≡ some j → (d =ₛ j) ≡ false
  elsewhere j q other at_q = elim (Bool-cases (d =ₛ j)) [
    | inr e ↦ e
    | inl e ↦
        let name : d ≡ j = (=ₛ_iff d j).0 e in
        let known : lookup j index.positions ≡ some q = y.placed j q at_q in absurd (other cc)
  ]

  -- The last document, `moved`, takes the place of the removed one.
  module _ (moved : Str) (row : vs.V) (inside : p ≢ last)
      (name_last : get_elem? index.ids last ≡ some moved)
      (row_last : get_elem? index.matrix last ≡ some row) where
    abbrev pub filled : VectorIndex vs
    filled = record index {
      ids = pop (set index.ids p moved);
      positions = put moved p (remove d index.positions);
      matrix = set index.matrix p row;
    }

    before_last : p + 1 < length index.ids
    before_last = omega (arith, inside, below)

    length-filled : length (pop (set index.ids p moved)) ≡ last
    length-filled = omega (arith, length-pop (set index.ids p moved), length-set index.ids p moved)

    -- An identifier of the filled list, by its position.
    at_hole : get_elem? (pop (set index.ids p moved)) p ≡ some moved
    at_hole =
        get_elem?-pop (set index.ids p moved) p
          (omega (arith, before_last, length-set index.ids p moved))
        ∙ get_elem?-set index.ids p moved below

    at_other :
        (q : ℕ)
        → p ≢ q
        → q < last
        → get_elem? (pop (set index.ids p moved)) q ≡ get_elem? index.ids q
    at_other q other h =
        get_elem?-pop (set index.ids p moved) q (omega (arith, h, length-set index.ids p moved))
        ∙ get_elem?-set_other index.ids p q moved other

    moved_other : (d =ₛ moved) ≡ false
    moved_other = elsewhere moved last inside name_last

    known_last : lookup moved index.positions ≡ some last
    known_last = y.placed moved last name_last

    position_filled :
        (j : Str) (q : ℕ) → lookup j filled.positions ≡ some q → get_elem? filled.ids q ≡ some j
    position_filled j q found = elim (Bool-cases (moved =ₛ j)) [
      | inl e ↦
          let name : moved ≡ j = (=ₛ_iff moved j).0 e in
          let g : some p ≡ some q = rw (lookup-put, e) at found in
          let place : p ≡ q = cc in
          subst (λ r. get_elem? filled.ids r ≡ some j) place (at_hole ∙ ap some name)
      | inr e ↦
          let g : lookup j (remove d index.positions) ≡ some q = rw (lookup-put, e) at found in
          elim (Bool-cases (d =ₛ j)) [
            | inl gone ↦ let k = rw (lookup-remove, gone) at g in absurd cc
            | inr kept ↦
                let known : lookup j index.positions ≡ some q = rw (lookup-remove, kept) at g in
                let at_q = y.position j q known in
                let other = apart j q (differ d j kept) at_q in
                let not_last : q ≢ last = λ same.
                  let at_last : get_elem? index.ids q ≡ some moved =
                    subst (λ r. get_elem? index.ids r ≡ some moved) (sym same) name_last in
                  differ moved j e cc in
                at_other q other (omega (arith, get_elem?-bound index.ids q j at_q, not_last))
                ∙ at_q
          ]
    ]

    placed_filled :
        (j : Str) (q : ℕ) → get_elem? filled.ids q ≡ some j → lookup j filled.positions ≡ some q
    placed_filled j q found = elim (Bool-cases (p == q)) [
      | inl e ↦
          let same : p ≡ q = (==_iff p q).0 e in
          let at_q : get_elem? filled.ids q ≡ some moved =
            subst (λ r. get_elem? filled.ids r ≡ some moved) same at_hole in
          let name : moved ≡ j = cc in rw (lookup-put, (=ₛ_iff moved j).1 name) (ap some same)
      | inr e ↦
          let other : p ≢ q = λ same. ground (arith, ==_iff p q) in
          let bound : q < last =
            omega (arith, get_elem?-bound filled.ids q j found, length-filled) in
          let at_q : get_elem? index.ids q ≡ some j = sym (at_other q other bound) ∙ found in
          let known : lookup j index.positions ≡ some q = y.placed j q at_q in
          let not_moved : (moved =ₛ j) ≡ false = elim (Bool-cases (moved =ₛ j)) [
            | inr differs ↦ differs
            | inl same ↦
                let name : moved ≡ j = (=ₛ_iff moved j).0 same in
                let place : some last ≡ some q =
                  sym known_last ∙ ap (λ k. lookup k index.positions) name ∙ known in
                let equal : last ≡ q = cc in absurd (omega (arith, equal, bound))
          ] in
          rw (lookup-put, not_moved, lookup-remove, elsewhere j q other at_q) known
    ]

    vectors_filled : (j : Str) → j ≢ d → vector_for vs filled j ≡ vector_for vs index j
    vectors_filled j other = elim (Bool-cases (d =ₛ j)) [
      | inl e ↦ absurd (other (sym ((=ₛ_iff d j).0 e)))
      | inr e ↦ elim (Bool-cases (moved =ₛ j)) [
        | inl same ↦
            let name : moved ≡ j = (=ₛ_iff moved j).0 same in
            let known : lookup j index.positions ≡ some last =
              ap (λ k. lookup k index.positions) (sym name) ∙ known_last in
            unfold vector_for in
            rw (vector_for, lookup-put, same)
              (get_elem?-set index.matrix p row (omega (arith, below, y.rows))
                ∙ sym (rw (vector_for, known) row_last))
        | inr differs ↦ elim (Option-cases (lookup j index.positions)) [
          | inl f ↦ unfold vector_for in rw (vector_for, lookup-put, differs, lookup-remove, e, f)
          | inr (q, f) ↦
              let not_hole = apart j q (differ d j e) (y.position j q f) in
              unfold vector_for in
              rw (vector_for, lookup-put, differs, lookup-remove, e, f)
                (get_elem?-set_other index.matrix p q row not_hole)
        ]
      ]
    ]

    pub filled-Removed : Removed vs d index filled
    unfolding vector_for
    filled-Removed = (
      record {
        position = position_filled;
        placed = placed_filled;
        rows = omega (arith, y.rows, length-filled, length-set index.matrix p row);
      },
      rw (vector_for, lookup-put, not_moved, lookup-remove, =ₛ_refl),
      vectors_filled,
    )
      where
        not_moved : (moved =ₛ d) ≡ false
        not_moved = ground (arith, =ₛ_iff moved d, =ₛ_iff d moved, moved_other)
