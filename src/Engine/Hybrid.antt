-- ===== src/Engine/Hybrid.antt =====
-- app/search/engine.py: hybrid_search, over one engine.
use pysearch.Base.{
  ℕ, Str, none, some, List, [], length, if◌then◌else◌, ◌==◌, pure, raise, lift, ◌>>=◌, ◌>>◌,
  semantic_disabled, embedding_error,
}
use pysearch.Float.{Float}
use pysearch.Analysis.{analyze}
use pysearch.VectorIndex.{Vectors}
use pysearch.Fusion.{FusionConfig, HybridResults, candidate_depth, reciprocal_rank_fusion}
use pysearch.Engine.{Config, Act, require_operational}
use pysearch.Engine.Query.{search_locked, semantic_search_locked}

module _ {fl : Float} {vs : Vectors fl} (cfg : Config vs) where
  -- Both retrievals under one acquisition of the lock, and their fusion.
  unfoldable pub fuse_both : List Str → vs.V → ℕ → FusionConfig → Act cfg (HybridResults fl.F)
  fuse_both terms vector limit settings = do
    require_operational cfg
    lexical ← search_locked cfg terms (candidate_depth settings limit) none
    semantic ← semantic_search_locked cfg vector (candidate_depth settings limit)
    lift (reciprocal_rank_fusion fl lexical semantic limit settings)

  unfoldable pub hybrid_search : Str → ℕ → FusionConfig → Act cfg (HybridResults fl.F)
  hybrid_search query limit settings =
      let terms = analyze cfg.unicode query in
      if length terms == 0 then pure (record { total = 0; results = [] }) else elim cfg.embedder [
        | none ↦ raise semantic_disabled
        | some embedder ↦ elim (embedder.embed_query query) [
          | none ↦ raise embedding_error
          | some vector ↦ fuse_both terms vector limit settings
        ]
      ]
