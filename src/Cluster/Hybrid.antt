-- ===== src/Cluster/Hybrid.antt =====
-- app/cluster/coordinator.py: hybrid_search. Its two retrievals are made one after the other here;
-- both are made, whatever the first answers, and the first exception in their order is raised.
use pysearch.Base.{
  ℕ, Str, none, some, List, [], length, if◌then◌else◌, ◌==◌, Exec, pure, raise, and_then,
  semantic_disabled, embedding_error,
}
use pysearch.Float.{Float}
use pysearch.Analysis.{analyze}
use pysearch.Results.{SearchResults}
use pysearch.Fusion.{FusionConfig, HybridResults, candidate_depth, reciprocal_rank_fusion}
use pysearch.Cluster.Coordinator.{
  Coordinator, QueryEmbedder, unique_terms, search_rounds, semantic_round,
}

module _ {S : Type 0} (fl : Float) where
  -- asyncio.gather of both retrievals, and the fusion of what they return
  unfoldable pub retrieve_both :
      Exec S (SearchResults fl.F)
      → Exec S (SearchResults fl.F)
      → ℕ
      → FusionConfig
      → Exec S (HybridResults fl.F)
  retrieve_both lexical semantic limit settings s =
      let (found, s') = lexical s in
      let (similar, s'') = semantic s' in
      (
        and_then found λ results.
            and_then similar λ others. reciprocal_rank_fusion fl results others limit settings,
        s'',
      )

module _ {S : Type 0} {fl : Float} {V : Type 0} (c : Coordinator S fl V) where
  unfoldable pub hybrid_rounds :
      Str → List Str → V → ℕ → FusionConfig → QueryEmbedder V → Exec S (HybridResults fl.F)
  hybrid_rounds query terms vector limit settings embedder =
      let depth = candidate_depth settings limit in
      retrieve_both fl (search_rounds c query (unique_terms terms) depth)
        (semantic_round c vector depth embedder.identity) limit settings

  -- hybrid_search
  unfoldable pub distributed_hybrid_search : Str → ℕ → FusionConfig → Exec S (HybridResults fl.F)
  distributed_hybrid_search query limit settings =
      let terms = analyze c.unicode query in
      if length terms == 0 then pure (record { total = 0; results = [] }) else elim c.embedder [
        | none ↦ raise semantic_disabled
        | some embedder ↦ elim (embedder.embed_query query) [
          | none ↦ raise embedding_error
          | some vector ↦ hybrid_rounds query terms vector limit settings embedder
        ]
      ]
