-- ===== src/Cluster/Figures.antt =====
-- The cluster's index statistics against those of one engine over all documents.
use pysearch.Base.{List, [], ◌∷◌, ◌≡◌, refl, ap, ◌∙◌, map, map-map, sum, All, ok}
use pysearch.Float.{Float}
use pysearch.Index.{document_count}
use pysearch.Ranking.{index_stats}
use pysearch.VectorIndex.{Vectors}
use pysearch.Engine.{Config, Engine}
use pysearch.Engine.Sync.{InSync}
use pysearch.Engine.Parted.{HoldsAll, figures_together}
use pysearch.Cluster.{ShardCopies}
use pysearch.Cluster.Coordinator.{Coordinator, index_stats_from_any_copy}
use pysearch.Cluster.Gathering.{gather-ok}
use pysearch.Cluster.Distributed.{run_all_each}
use pysearch.Cluster.Status.{ClusterStats, cluster_figures, cluster_index_stats}

module _ {S : Type 0} {fl : Float} {vs : Vectors fl} (cfg : Config vs) where
  -- A shard, and the engine whose statistics its first copy that answers gives.
  abbrev pub Measured : S → ShardCopies S fl vs.V × Engine vs → Type 0
  Measured s p = index_stats_from_any_copy p.0 s ≡ (ok (index_stats fl p.1.index), s)

  abbrev pub figures_of :
      Coordinator S fl vs.V → List (ShardCopies S fl vs.V × Engine vs) → ClusterStats fl
  figures_of c shards =
      cluster_figures fl c.router.shard_count (map (λ p. index_stats fl p.1.index) shards)

  counts :
      (shards : List (ShardCopies S fl vs.V × Engine vs))
      → (map (λ stats. stats.document_count) (map (λ p. index_stats fl p.1.index) shards)
          ≡ map (λ e. document_count e.index) (map (λ p. p.1) shards))
        × (map (λ stats. stats.total_token_count) (map (λ p. index_stats fl p.1.index) shards)
            ≡ map (λ e. e.index.total_length) (map (λ p. p.1) shards))
  unfolding index_stats
  counts [] = (refl, refl)
  counts (p ∷ shards) = (
    ap (λ l. document_count p.1.index ∷ l) (counts shards).0,
    ap (λ l. p.1.index.total_length ∷ l) (counts shards).1,
  )

  had_unchanged :
      (c : Coordinator S fl vs.V) (shards : List (ShardCopies S fl vs.V × Engine vs)) (s : S)
      → c.topology ≡ map (λ p. p.0) shards
      → All (Measured s) shards
      → cluster_index_stats c s ≡ (ok (figures_of c shards), s)
  unfolding cluster_index_stats
  had_unchanged c shards s placed measured =
      let asked = λ (p : ShardCopies S fl vs.V × Engine vs). index_stats_from_any_copy p.0 in
      let gathered =
        gather-ok (map asked shards) s s _
          (run_all_each asked (λ p. index_stats fl p.1.index) s shards measured) in
      rw (placed, map-map index_stats_from_any_copy (λ p. p.0) shards, gathered)

  -- Let every shard give the statistics of an engine in sync, and let one engine, in sync, hold
  -- exactly the documents of these, no two of which share a document. Then the cluster's index
  -- statistics are had without changing anything, and their number of documents and average
  -- document length are those of the one engine.
  pub cluster_index_stats-exact :
      (c : Coordinator S fl vs.V) (shards : List (ShardCopies S fl vs.V × Engine vs)) (s : S)
      (whole : Engine vs)
      → c.topology ≡ map (λ p. p.0) shards
      → All (Measured s) shards
      → All (InSync cfg) (map (λ p. p.1) shards)
      → HoldsAll cfg whole (map (λ p. p.1) shards)
      → (cluster_index_stats c s ≡ (ok (figures_of c shards), s))
        × ((figures_of c shards).document_count ≡ (index_stats fl whole.index).document_count)
        × ((figures_of c shards).average_document_length
            ≡ (index_stats fl whole.index).average_document_length)
  unfolding cluster_index_stats cluster_figures index_stats
  cluster_index_stats-exact c shards s whole placed measured y h =
      let together = figures_together cfg whole (map (λ p. p.1) shards) y h in
      let documents = ap sum (counts shards).0 ∙ together.0 in
      let tokens = ap sum (counts shards).1 ∙ together.1 in
      (had_unchanged c shards s placed measured, documents, rw (documents, tokens))
