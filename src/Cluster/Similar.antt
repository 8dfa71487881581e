-- ===== src/Cluster/Similar.antt =====
-- The coordinator's semantic search against that of one engine over all documents.
use pysearch.Base.{
  ℕ, Str, true, false, some, List, [], ◌∷◌, ◌++◌, ◌≡◌, refl, ap, sym, ◌∙◌, map, map-map, All,
  concat_map, ltb, ok, lift, ◌>>=◌,
}
use mathlib.Core.Path.{ap₂}
use pysearch.Float.{Float, IsOrdered}
use pysearch.Results.{top}
use pysearch.VectorIndex.{Vectors, VectorIndex, vector_for}
use pysearch.Engine.{Config, Engine}
use pysearch.Engine.Query.{semantic_search, embed_query}
use pysearch.Engine.Parted.{HoldsAll}
use pysearch.Engine.Similar.{
  Embeds, Parts, engines_in, vector_among, similar, similar_together, semantic_search-ok,
  top-similar_together,
}
use pysearch.Cluster.{SemanticIdentity, ShardCopies}
use pysearch.Cluster.Coordinator.{
  Coordinator, QueryEmbedder, semantic_from_any_copy, semantic_round, distributed_semantic_search,
}
use pysearch.Cluster.Gathering.{gather-ok}
use pysearch.Cluster.Distributed.{run_all_each, All-map}
use pysearch.Cluster.Merging.{merge-top}

module _ (S : Type 0) {fl : Float} {vs : Vectors fl} (cfg : Config vs) where
  -- A shard, and the engine with its vectors of the first copy that answers.
  abbrev pub Embedded : Type 0
  Embedded = ShardCopies S fl vs.V × Engine vs × VectorIndex vs

  -- The shard answers the query with what that engine finds, which accepts it, and nothing
  -- changes.
  pub record Answers (query : vs.V) (limit : ℕ) (identity : SemanticIdentity) (s : S) (p : Embedded)
      : Type 0 where
    pub answers :
        semantic_from_any_copy query limit identity p.0 s
        ≡ ((semantic_search cfg query limit p.1).0, s)
    pub embeds : Embeds cfg p.1 p.2
    pub fits : vs.accepts p.2.dimension query ≡ true

  abbrev pub parts_of : List Embedded → Parts cfg
  parts_of shards = map (λ p. (p.1, p.2)) shards

  together :
      (query : vs.V) (shards : List Embedded)
      → concat_map (λ p. similar cfg query p.1 p.2) shards
        ≡ similar_together cfg query (parts_of shards)
  together query [] = refl
  together query (p ∷ shards) = ap₂ (λ l r. l ++ r) refl (together query shards)

  All-Embeds :
      (query : vs.V) (limit : ℕ) (identity : SemanticIdentity) (s : S) (shards : List Embedded)
      → All (Answers query limit identity s) shards
      → All (λ p. Embeds cfg p.0 p.1) (parts_of shards)
  All-Embeds query limit identity s [] v = tt
  All-Embeds query limit identity s (p ∷ shards) v =
      (v.0.embeds, All-Embeds query limit identity s shards v.1)

  answered_top :
      (query : vs.V) (limit : ℕ) (identity : SemanticIdentity) (s : S)
      → ltb limit 1 ≡ false
      → (p : Embedded) → Answers query limit identity s p
      → semantic_from_any_copy query limit identity p.0 s
        ≡ (ok (top fl limit (similar cfg query p.1 p.2)), s)
  answered_top query limit identity s enough p v =
      v.answers
      ∙ ap (λ r. (r.0, s)) (semantic_search-ok cfg query limit p.1 p.2 v.embeds enough v.fits)

  -- Shards whose engines hold a whole in parts, the vectors included, and answer a query.
  pub record HoldsVectors (query : vs.V) (limit : ℕ) (identity : SemanticIdentity) (s : S)
      (shards : List Embedded) (whole : Engine vs) (index : VectorIndex vs) : Type 0 where
    pub answering : All (Answers query limit identity s) shards
    pub embeds : Embeds cfg whole index
    pub fits : vs.accepts index.dimension query ≡ true
    pub parts : HoldsAll cfg whole (engines_in cfg (parts_of shards))
    pub alike : (d : Str) → vector_for vs index d ≡ vector_among cfg (parts_of shards) d

  module _ (o : IsOrdered fl) (c : Coordinator S fl vs.V) (query : vs.V) (limit : ℕ)
      (identity : SemanticIdentity) (s : S) (shards : List Embedded) (whole : Engine vs)
      (index : VectorIndex vs) (enough : ltb limit 1 ≡ false)
      (placed : c.topology ≡ map (λ p. p.0) shards)
      (h : HoldsVectors query limit identity s shards whole index) where
    semantic_round-top :
        semantic_round c query limit identity s
        ≡ (ok (top fl limit (similar cfg query whole index)), s)
    unfolding semantic_round
    semantic_round-top =
        let asked = λ (p : Embedded). semantic_from_any_copy query limit identity p.0 in
        let gathered = gather-ok (map asked shards) s s _ (
          run_all_each asked (λ p. top fl limit (similar cfg query p.1 p.2)) s shards
            (All-map (answered_top query limit identity s enough) shards h.answering)) in
        rw
          (
            placed,
            map-map (semantic_from_any_copy query limit identity) (λ p. p.0) shards,
            gathered,
          )
          (ap (λ answer. (ok answer, s))
            (merge-top o limit (λ p. similar cfg query p.1 p.2) shards
              ∙ ap (top fl limit) (together query shards)
              ∙ top-similar_together cfg o query limit whole index (parts_of shards)
                  (All-Embeds query limit identity s shards h.answering) h.embeds h.parts h.alike))

    semantic_round-whole :
        semantic_round c query limit identity s ≡ ((semantic_search cfg query limit whole).0, s)
    semantic_round-whole =
        semantic_round-top
        ∙ ap (λ r. (r.0, s))
            (sym (semantic_search-ok cfg query limit whole index h.embeds enough h.fits))

  -- Let every shard answer a query of at least one result with what an engine finds, which is
  -- ready, holds a vector only for documents that it has cached, and accepts the query's vector.
  -- Let one such engine hold exactly the documents and the vectors of these, no two of which share
  -- a document; let it and the coordinator embed the query alike, over ordered floats. Then the
  -- coordinator's semantic search changes nothing and returns what the one engine's returns.
  pub distributed_semantic_search-HoldsVectors :
      (o : IsOrdered fl) (c : Coordinator S fl vs.V) (text : Str) (query : vs.V) (limit : ℕ)
      (embedder : QueryEmbedder vs.V) (s : S) (shards : List Embedded) (whole : Engine vs)
      (index : VectorIndex vs)
      → ltb limit 1 ≡ false
      → c.embedder ≡ some embedder
      → embedder.embed_query text ≡ some query
      → embed_query cfg text ≡ ok query
      → c.topology ≡ map (λ p. p.0) shards
      → HoldsVectors query limit embedder.identity s shards whole index
      → distributed_semantic_search c text limit s ≡ (
        ((lift (embed_query cfg text) >>= λ vector. semantic_search cfg vector limit) whole).0,
        s,
      )
  unfolding distributed_semantic_search semantic_round
  distributed_semantic_search-HoldsVectors o c text query limit embedder s shards whole index enough
        enabled embedded alike placed h =
      rw (enabled, embedded, alike)
        (semantic_round-whole o c query limit embedder.identity s shards whole index enough placed
          h)
