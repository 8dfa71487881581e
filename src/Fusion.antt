-- ===== src/Fusion.antt =====
-- app/hybrid/fusion.py: reciprocal rank fusion of two rankings.
pub mod Ranks
pub mod Bounds
pub mod Page
use Prim.Native.Nat.{min}
use pysearch.Base.{
  ℕ, ◌+◌, ◌*◌, Str, Dict, Bool, not, Option, none, some, List, [], ◌∷◌, lookup, put, values, length,
  take, map, sorted, if◌then◌else◌, ltb, Result, ok, err, value_error,
}
use pysearch.Float.{Float}
use pysearch.Results.{SearchResult, SearchResults, ranks_before}

-- FusionConfig
pub record FusionConfig : Type 0 where
  pub rrf_k : ℕ
  pub candidate_multiplier : ℕ
  pub max_candidate_depth : ℕ

unfoldable pub fusion_config : ℕ → ℕ → ℕ → Result FusionConfig
fusion_config rrf_k candidate_multiplier max_candidate_depth =
    if ltb rrf_k 1
    then err value_error
    else if ltb candidate_multiplier 1
    then err value_error
    else ok (record {
      rrf_k = rrf_k;
      candidate_multiplier = candidate_multiplier;
      max_candidate_depth = max_candidate_depth;
    })

abbrev pub candidate_depth : FusionConfig → ℕ → ℕ
candidate_depth settings limit =
    min (limit * settings.candidate_multiplier) settings.max_candidate_depth

-- HybridHit, which has the fields of _Candidate
pub record HybridHit (F : Type 0) : Type 0 where
  pub document_id : Str
  pub score : F
  pub text : Str
  pub lexical_rank : Option ℕ
  pub semantic_rank : Option ℕ
  pub lexical_score : Option F
  pub semantic_score : Option F

pub record HybridResults (F : Type 0) : Type 0 where
  pub total : ℕ
  pub results : List (HybridHit F)

module _ (fl : Float) where
  open fl use {F, of_nat, add, div}

  -- candidates.setdefault(hit.document_id, …)
  abbrev pub candidate_or : SearchResult F → Option (HybridHit F) → HybridHit F
  candidate_or hit none = record {
    document_id = hit.document_id;
    score = of_nat 0;
    text = hit.text;
    lexical_rank = none;
    semantic_rank = none;
    lexical_score = none;
    semantic_score = none;
  }
  candidate_or hit (some candidate) = candidate

  -- The bodies of the two loops.
  abbrev pub lexical_step : FusionConfig → ℕ → SearchResult F → HybridHit F → HybridHit F
  lexical_step settings rank hit candidate = record candidate {
    lexical_rank = some rank;
    lexical_score = some hit.score;
    score = add candidate.score (div (of_nat 1) (of_nat (settings.rrf_k + rank)));
  }

  abbrev pub semantic_step : FusionConfig → ℕ → SearchResult F → HybridHit F → HybridHit F
  semantic_step settings rank hit candidate = record candidate {
    semantic_rank = some rank;
    semantic_score = some hit.score;
    score = add candidate.score (div (of_nat 1) (of_nat (settings.rrf_k + rank)));
  }

  -- A loop over the hits of one list from a rank on.
  accumulate :
      (ℕ → SearchResult F → HybridHit F → HybridHit F)
      → ℕ
      → List (SearchResult F)
      → Dict (HybridHit F)
      → Dict (HybridHit F)
  accumulate step rank [] candidates = candidates
  accumulate step rank (hit ∷ hits) candidates = accumulate step (rank + 1) hits (
      put hit.document_id (step rank hit (candidate_or hit (lookup hit.document_id candidates)))
        candidates)

  unfoldable pub fused_candidates :
      FusionConfig → List (SearchResult F) → List (SearchResult F) → Dict (HybridHit F)
  unfolding accumulate
  fused_candidates settings lexical semantic =
      accumulate (semantic_step settings) 1 semantic
        (accumulate (lexical_step settings) 1 lexical [])

  unfoldable pub candidate_le : HybridHit F → HybridHit F → Bool
  candidate_le a b = not (ranks_before fl b.score b.document_id a.score a.document_id)

  unfoldable pub reciprocal_rank_fusion :
      SearchResults F → SearchResults F → ℕ → FusionConfig → Result (HybridResults F)
  reciprocal_rank_fusion lexical semantic limit settings =
      if ltb limit 1
      then err value_error
      else (let candidates = fused_candidates settings lexical.results semantic.results in
          ok (record {
            total = length candidates;
            results = take limit (sorted candidate_le (values candidates));
          }))
