-- ===== src/VectorIndex.antt =====
-- app/semantic/vector_index.py: the exact vector index, with its rows in place. numpy is the
-- parameter `Vectors`.
pub mod Rows
pub mod Adding
pub mod Moving
pub mod Removing
pub mod Similarity
use Prim.Native.Nat.{max}
use pysearch.Base.{
  ℕ, ◌+◌, ◌-◌, ◌*◌, Str, Dict, Bool, true, false, not, ◌&&◌, Option, none, some, List, [], ◌∷◌,
  ◌++◌, lookup, member, put, remove, length, take, get_elem?, set, pop, replicate, if◌then◌else◌,
  ltb, leb, ◌==◌, sorted, Result, ok, err, and_then, raise_if, vector_index_error, value_error,
}
use pysearch.Float.{Float}
use pysearch.Results.{item_le}

-- The arrays of numpy that the program computes with: one row, its tests, and the dot product.
pub record Vectors (fl : Float) : Type 1 where
  pub V : Type 0
  pub zero_row : V
  -- one-dimensional, of the given width, and finite: the three tests of `_validate`
  pub accepts : ℕ → V → Bool
  -- of length zero, or within the tolerance of one
  pub is_unit : V → Bool
  pub dot : V → V → fl.F

module _ {fl : Float} (vs : Vectors fl) where
  open vs use {V, zero_row, accepts, dot, is_unit}

  -- ExactVectorIndex. The rows past the live ones are spare capacity.
  pub record VectorIndex : Type 0 where
    pub dimension : ℕ
    pub ids : List Str
    pub positions : Dict ℕ
    pub matrix : List V

  -- `__init__`, after its check of the dimension
  unfoldable pub new_vectors : ℕ → VectorIndex
  new_vectors dimension = record {
    dimension = dimension;
    ids = [];
    positions = [];
    matrix = replicate 64 zero_row;
  }

  -- `__init__`
  new_vector_index : ℕ → Result VectorIndex
  new_vector_index dimension =
      if ltb dimension 1 then err value_error else ok (new_vectors dimension)

  -- clear
  clear_vectors : VectorIndex → VectorIndex
  clear_vectors index = new_vectors index.dimension

  -- contains
  has_vector : VectorIndex → Str → Bool
  has_vector index document_id = member document_id index.positions

  abbrev pub vector_count : VectorIndex → ℕ
  vector_count index = length index.ids

  -- vector_for; `none` is its KeyError
  unfoldable pub vector_for : VectorIndex → Str → Option V
  vector_for index document_id = elim (lookup document_id index.positions) [
    | none ↦ none
    | some position ↦ get_elem? index.matrix position
  ]

  -- _grow_if_needed
  unfoldable pub grow_if_needed : ℕ → List V → List V
  grow_if_needed required matrix =
      if leb required (length matrix)
      then matrix
      else matrix ++ replicate (max required (length matrix * 2) - length matrix) zero_row

  unfoldable pub add_vector : Str → V → VectorIndex → Result VectorIndex
  unfolding grow_if_needed
  add_vector document_id vector index =
      if accepts index.dimension vector
      then ok (elim (lookup document_id index.positions) [
        | some position ↦ record index { matrix = set index.matrix position vector }
        | none ↦
            let position = length index.ids in
            record index {
              ids = index.ids ++ document_id ∷ [];
              positions = put document_id position index.positions;
              matrix = set (grow_if_needed (position + 1) index.matrix) position vector;
            }
      ])
      else err vector_index_error

  -- `if position != last:` the last live row moves into the hole.
  fill_hole : ℕ → ℕ → VectorIndex → VectorIndex
  fill_hole position last index = elim (get_elem? index.ids last) [
    | none ↦ index
    | some moved ↦ elim (get_elem? index.matrix last) [
      | none ↦ index
      | some row ↦ record index {
        matrix = set index.matrix position row;
        ids = set index.ids position moved;
        positions = put moved position index.positions;
      }
    ]
  ]

  unfoldable pub remove_vector : Str → VectorIndex → VectorIndex × Bool
  unfolding fill_hole
  remove_vector document_id index = elim (lookup document_id index.positions) [
    | none ↦ (index, false)
    | some position ↦
        let last = length index.ids - 1 in
        let popped = record index { positions = remove document_id index.positions } in
        let filled = if position == last then popped else fill_hole position last popped in
        (record filled { ids = pop filled.ids }, true)
  ]

  -- zip(ids, scores), where the scores are the product of the matrix and the query: one dot product
  -- for each row, taken without regard to the order in which BLAS adds up within a row.
  unfoldable pub similarities : V → List Str → List V → List (Str × fl.F)
  similarities query [] rows = []
  similarities query (document_id ∷ ids) [] = []
  similarities query (document_id ∷ ids) (row ∷ rows) =
      (document_id, dot row query) ∷ similarities query ids rows

  unfoldable pub search_vectors : V → ℕ → VectorIndex → Result (List (Str × fl.F))
  unfolding similarities
  search_vectors query limit index = if ltb limit 1 then err value_error else elim index.ids [
    | [] ↦ ok []
    | ◌∷◌ first rest ↦
        if accepts index.dimension query
        then ok (take limit (sorted (item_le fl) (similarities query index.ids index.matrix)))
        else err vector_index_error
  ]

  -- The rows of the live documents, in the checks of `validate`.
  positions_agree : Dict ℕ → ℕ → List Str → Bool
  positions_agree positions position [] = true
  positions_agree positions position (document_id ∷ ids) =
      let rest = positions_agree positions (position + 1) ids in
      elim (lookup document_id positions) [
        | none ↦ false
        | some recorded ↦ recorded == position && rest
      ]

  all_rows : (V → Bool) → List V → Bool
  all_rows test [] = true
  all_rows test (row ∷ rows) = test row && all_rows test rows

  unfoldable pub validate_vectors : VectorIndex → Result (Unit {0})
  unfolding positions_agree all_rows
  validate_vectors index =
      let live = take (length index.ids) index.matrix in
      and_then (raise_if (not (length index.ids == length index.positions)) vector_index_error) λ _.
        and_then (raise_if (not (positions_agree index.positions 0 index.ids)) vector_index_error)
          λ _.
            and_then (raise_if (not (all_rows (accepts index.dimension) live)) vector_index_error)
              λ _. raise_if (not (all_rows is_unit live)) vector_index_error
