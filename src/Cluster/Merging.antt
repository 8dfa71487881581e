-- ===== src/Cluster/Merging.antt =====
-- Merging the shards' best results gives the best of all results.
use pysearch.Base.{
  ℕ, List, [], ◌∷◌, ◌++◌, ◌≡◌, refl, ap, ◌∙◌, map, length, take, sum, sorted, concat_map,
  length-append, arith, take-sorted-concat_map,
}
use mathlib.Core.Path.{ap₂}
use pysearch.Float.{Float, IsOrdered}
use pysearch.Results.{SearchResult, hit_le, top}
use pysearch.Results.Order.{hit_le-IsPreorder}
use pysearch.Cluster.Coordinator.{merge}

module _ {fl : Float} (o : IsOrdered fl) where
  module _ {B : Type 0} (limit : ℕ) (hits : B → List (SearchResult fl.F)) where
    total-merge :
        (shards : List B)
        → sum (map (λ r. r.total) (map (λ b. top fl limit (hits b)) shards))
          ≡ length (concat_map hits shards)
    total-merge [] = refl
    total-merge (b ∷ shards) =
        omega (arith, total-merge shards, length-append (hits b) (concat_map hits shards))

    results-merge :
        (shards : List B)
        → concat_map (λ r. r.results) (map (λ b. top fl limit (hits b)) shards)
          ≡ concat_map (λ b. take limit (sorted (hit_le fl) (hits b))) shards
    results-merge [] = refl
    results-merge (b ∷ shards) =
        ap (λ l. take limit (sorted (hit_le fl) (hits b)) ++ l) (results-merge shards)

    -- Over ordered floats, the best `limit` of the shards' best `limit` are the best `limit` of
    -- everything that the shards scored, in the same order, and the total counts all of it.
    pub merge-top :
        (shards : List B)
        → merge fl (map (λ b. top fl limit (hits b)) shards) limit
          ≡ top fl limit (concat_map hits shards)
    unfolding merge
    merge-top shards =
        ap₂ (λ n l. record { total = n; results = l }) (total-merge shards)
          (ap (λ l. take limit (sorted (hit_le fl) l)) (results-merge shards)
            ∙ take-sorted-concat_map (hit_le-IsPreorder o) limit hits shards)
