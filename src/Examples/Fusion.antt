-- ===== src/Examples/Fusion.antt =====
-- Two rankings fused, run.
use pysearch.Base.{
  ℕ, Str, ◌≡◌, refl, List, [], ◌∷◌, ◌++◌, Distinct, contains, ◌=ₛ◌, codes, lookup, length, ◌≤◌, ok,
  arith,
}
use Prim.Native.Nat.{min}
use pysearch.Float.{naturals, naturals-IsOrdered}
use pysearch.Results.{SearchResult, SearchResults}
use pysearch.Fusion.{
  FusionConfig, HybridHit, HybridResults, fused_candidates, reciprocal_rank_fusion,
}
use pysearch.Fusion.Page.{RanksAll, reciprocal_rank_fusion-RanksAll}
use pysearch.Fusion.Ranks.{ranked_in, ids, fused, fused_candidates-ranks}

abbrev settings : FusionConfig
settings = record { rrf_k = 60; candidate_multiplier = 5; max_candidate_depth = 100 }

abbrev hit : Str → SearchResult ℕ
hit document_id = record { document_id = document_id; score = 3; text = codes "red" }

abbrev lexical_hits : List (SearchResult ℕ)
lexical_hits = hit (codes "a") ∷ hit (codes "b") ∷ []

abbrev semantic_hits : List (SearchResult ℕ)
semantic_hits = hit (codes "b") ∷ []

lexical_hits-Distinct : Distinct (ids lexical_hits)
unfolding contains ◌=ₛ◌
lexical_hits-Distinct = (refl, (refl, tt))

semantic_hits-Distinct : Distinct (ids semantic_hits)
unfolding contains
semantic_hits-Distinct = (refl, tt)

fused_candidates-ranks_example :
    lookup (codes "b") (fused_candidates naturals settings lexical_hits semantic_hits)
    ≡ fused naturals settings
        (ranked_in 1 (codes "b") lexical_hits)
        (ranked_in 1 (codes "b") semantic_hits)
fused_candidates-ranks_example =
    fused_candidates-ranks naturals settings lexical_hits semantic_hits (codes "b")
      lexical_hits-Distinct semantic_hits-Distinct

abbrev page_of : List (SearchResult ℕ) → SearchResults ℕ
page_of hits = record { total = length hits; results = hits }

reciprocal_rank_fusion-RanksAll_example :
    (page : HybridResults ℕ) × (rest : List (HybridHit ℕ)) × (reciprocal_rank_fusion naturals
        (page_of lexical_hits)
        (page_of semantic_hits)
        1
        settings
      ≡ ok page)
    × RanksAll naturals settings lexical_hits semantic_hits lexical_hits-Distinct
        semantic_hits-Distinct
        (page.results ++ rest)
    × (length page.results ≡ min 1 page.total)
    × (page.total ≡ length (page.results ++ rest))
    × (page.total ≤ 3)
reciprocal_rank_fusion-RanksAll_example =
    reciprocal_rank_fusion-RanksAll naturals naturals-IsOrdered (page_of lexical_hits)
      (page_of semantic_hits) 1 settings lexical_hits-Distinct semantic_hits-Distinct (omega arith)
