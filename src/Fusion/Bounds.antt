-- ===== src/Fusion/Bounds.antt =====
-- The candidates of `reciprocal_rank_fusion`, their number and order, and the depth asked for.
use native.Mathlib.Nat.{mul-suc}
use pysearch.Base.{
  ℕ, zero, suc, ◌+◌, ◌*◌, ◌≤◌, Str, Dict, List, [], ◌∷◌, ◌≡◌, refl, ap, put, lookup, values, length,
  IsPreorder, ◌=ₛ◌, arith, inl, inr, Bool-cases,
}
use pysearch.Float.{Float, IsOrdered}
use pysearch.Results.{SearchResult}
use pysearch.Results.Order.{by_rank-IsPreorder}
use pysearch.Fusion.{
  FusionConfig, candidate_depth, HybridHit, candidate_or, accumulate, fused_candidates,
  candidate_le, lexical_step, semantic_step,
}

length-put {ℓ} : {V : Type ℓ} (k : Str) (v : V) (m : Dict V) → length (put k v m) ≤ suc (length m)
unfolding put
length-put k v [] = omega arith
length-put k v ((j, w) ∷ m) = elim (Bool-cases (j =ₛ k)) [
  | inl e ↦ rw e (omega arith)
  | inr e ↦ rw e (omega (arith, length-put k v m))
]

pub length-values {ℓ} : {V : Type ℓ} (m : Dict V) → length (values m) ≡ length m
length-values [] = refl
length-values ((k, v) ∷ m) = ap suc (length-values m)

module _ (fl : Float) where
  length-accumulate :
      (step : ℕ → SearchResult fl.F → HybridHit fl.F → HybridHit fl.F) (rank : ℕ)
      (hits : List (SearchResult fl.F)) (candidates : Dict (HybridHit fl.F))
      → length (accumulate fl step rank hits candidates) ≤ length hits + length candidates
  unfolding accumulate
  length-accumulate step rank [] candidates = omega arith
  length-accumulate step rank (hit ∷ hits) candidates =
      let fused = step rank hit (candidate_or fl hit (lookup hit.document_id candidates)) in
      omega (
        arith,
        length-accumulate step (rank + 1) hits (put hit.document_id fused candidates),
        length-put hit.document_id fused candidates,
      )

  pub fused_candidates_bound :
      (settings : FusionConfig) (lexical semantic : List (SearchResult fl.F))
      → length (fused_candidates fl settings lexical semantic) ≤ length lexical + length semantic
  unfolding fused_candidates
  fused_candidates_bound settings lexical semantic =
      let first = accumulate fl (lexical_step fl settings) 1 lexical [] in
      omega (
        arith,
        length-accumulate (semantic_step fl settings) 1 semantic first,
        length-accumulate (lexical_step fl settings) 1 lexical [],
      )

  pub candidate_le-IsPreorder : IsOrdered fl → IsPreorder (candidate_le fl)
  unfolding candidate_le
  candidate_le-IsPreorder o = by_rank-IsPreorder o (λ hit. hit.score) (λ hit. hit.document_id)

mul_least : (n m : ℕ) → 1 ≤ m → n ≤ n * m
mul_least n zero h = absurd (omega arith)
mul_least n (suc m) h = omega (arith, mul-suc n m)

-- A page of at most 100 results is asked for with a depth that the shards accept and that is no
-- less than the page.
pub candidate_depth_fits :
    (settings : FusionConfig) (limit : ℕ)
    → 1 ≤ settings.candidate_multiplier
    → settings.max_candidate_depth ≡ 100
    → 1 ≤ limit
    → limit ≤ 100
    → (limit ≤ candidate_depth settings limit) × (candidate_depth settings limit ≤ 100)
candidate_depth_fits settings limit m d l u =
    omega (arith, mul_least limit settings.candidate_multiplier m)
