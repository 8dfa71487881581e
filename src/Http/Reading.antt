-- ===== src/Http/Reading.antt =====
-- HttpShardClient's reads against the application of the node it speaks to: encoding and decoding
-- cancel.
use pysearch.Base.{
  ℕ, Str, Bool, true, Option, some, List, [], ◌∷◌, ◌≡◌, refl, ap, ◌∙◌, Result, ok, lift, ◌>>=◌, inl,
  inr, Bool-cases,
}
use pysearch.Float.{Float}
use pysearch.Analysis.{analyze}
use pysearch.Index.{CorpusStats, corpus_stats}
use pysearch.Engine.Sync.{InSync}
use pysearch.Engine.Searching.{search-ok}
use pysearch.Cluster.Distributed.{Relays}
use pysearch.Ranking.{IndexStats}
use pysearch.VectorIndex.{Vectors}
use pysearch.Engine.{Config, Engine, Act, is_ready}
use pysearch.Engine.Query.{
  search, search_locked, engine_corpus_stats, engine_stats, semantic_search, semantic_search_locked,
}
use pysearch.Cluster.{ShardClient, SemanticIdentity, is_compatible_with}
use pysearch.Cluster.Replication.{ReplicationTarget}
use pysearch.Http.{
  Request, Payload, search_request, corpus_stats_request, semantic_search_request,
  index_stats_request, ready_request, node_status_request, detail, respond, answered_with, found,
  statistics, index_figures,
}
use pysearch.Http.Internal.{Node, serve, in_limits, status_of, semantic_on_node, on_engine}
use pysearch.Http.Client.{
  Transport, answered, translate, ready_from, request, http_client, results_of, statistics_of,
  index_stats_of,
}
use pysearch.Http.Relaying.{
  Delivers, is_path_safe, path_id, relayed, request-respond, respond-state,
}

module _ {fl : Float} {vs : Vectors fl} (cfg : Config vs) where
  -- Queries change nothing.
  search_locked_same :
      (terms : List Str) (limit : ℕ) (given : Option CorpusStats) (e : Engine vs)
      → (search_locked cfg terms limit given e).1 ≡ e
  unfolding search_locked
  search_locked_same [] limit given e = refl
  search_locked_same (term ∷ terms) limit given e = refl

  search_same :
      (query : Str) (limit : ℕ) (given : Option CorpusStats) (e : Engine vs)
      → (search cfg query limit given e).1 ≡ e
  unfolding search
  search_same query limit given e = elim (Bool-cases (is_ready e.state)) [
    | inl serving ↦ rw serving (search_locked_same (analyze cfg.unicode query) limit given e)
    | inr idle ↦ rw idle
  ]

  corpus_stats_same : (terms : List Str) (e : Engine vs) → (engine_corpus_stats cfg terms e).1 ≡ e
  unfolding engine_corpus_stats
  corpus_stats_same terms e = elim (Bool-cases (is_ready e.state)) [
    | inl serving ↦ rw serving
    | inr idle ↦ rw idle
  ]

  stats_same : (e : Engine vs) → (engine_stats cfg e).1 ≡ e
  unfolding engine_stats
  stats_same e = elim (Bool-cases (is_ready e.state)) [
    | inl serving ↦ rw serving
    | inr idle ↦ rw idle
  ]

  semantic_search_same :
      (vector : vs.V) (limit : ℕ) (e : Engine vs) → (semantic_search cfg vector limit e).1 ≡ e
  unfolding semantic_search semantic_search_locked
  semantic_search_same vector limit e = elim (Bool-cases (is_ready e.state)) [
    | inl serving ↦ rw serving
    | inr idle ↦ rw idle
  ]

  module _ (is_space : ℕ → Bool) {T : Type 0} (target : ReplicationTarget T) {S : Type 0}
      {http : Transport S fl vs.V} {node_in : S → Node vs T} {with_node : Node vs T → S → S}
      (wire : Delivers cfg is_space target http node_in with_node) (s : S) where
    abbrev client : ShardClient S fl vs.V
    client = http_client http

    abbrev node : Node vs T
    node = node_in s

    -- The state after a node's engine is put back as it was.
    same_state : (e : Engine vs) → e ≡ node.engine → with_node (record node { engine = e }) s ≡ s
    same_state e h = rw h (wire.unchanged s)

    read_relayed :
        {A : Type 0} (asked : Request vs.V) (m : Act cfg A)
        (body : A → Payload fl.F (IndexStats fl)) (decode : Payload fl.F (IndexStats fl) → Result A)
        → is_path_safe (path_id asked) ≡ true
        → serve cfg is_space target asked node
          ≡ respond detail (answered_with 200 body) (on_engine m node)
        → (m node.engine).1 ≡ node.engine
        → ((a : A) → decode (body a) ≡ ok a)
        → (request http asked >>= λ b. lift (decode b)) s ≡ (relayed (m node.engine).0, s)
    read_relayed asked m body decode safe served same reads =
        let r = on_engine m node in
        let reached : http asked s ≡ (
          answered (respond detail (answered_with 200 body) r).0,
          with_node (respond detail (answered_with 200 body) r).1 s,
        ) =
          wire.delivers asked s safe ∙ rw served in
        request-respond http asked s s (answered_with 200 body) decode r
          (reached
            ∙ ap (λ t. (answered (respond detail (answered_with 200 body) r).0, t))
                (ap (λ n. with_node n s) (respond-state detail (answered_with 200 body) r)
                  ∙ same_state (m node.engine).1 same))
          (λ a. refl) reads

    -- Let requests be delivered to a node. What its client gets for a search of 1 to 100 results,
    -- for statistics and for figures is what the node's engine gives, with a failure turned into
    -- ShardUnavailableError; reported_ready and status are those of the node; and nothing changes.
    pub http_client_reads :
        (query : Str) (limit : ℕ) (stats : CorpusStats) (terms : List Str)
        → in_limits limit ≡ true
        → (client.search query limit stats s
            ≡ (relayed (search cfg query limit (some stats) node.engine).0, s))
          × (client.corpus_stats terms s
              ≡ (relayed (engine_corpus_stats cfg terms node.engine).0, s))
          × (client.index_stats s ≡ (relayed (engine_stats cfg node.engine).0, s))
          × (client.is_ready s ≡ (ok (is_ready node.engine.state), s))
          × (client.node_status s ≡ (ok (status_of node), s))
    unfolding http_client serve ready_from request translate
    http_client_reads query limit stats terms fits = (
      read_relayed (search_request query limit stats) (search cfg query limit (some stats)) found
          results_of refl (rw fits) (search_same query limit (some stats) node.engine) (λ a. refl),
      read_relayed (corpus_stats_request terms) (engine_corpus_stats cfg terms) statistics
          statistics_of refl refl (corpus_stats_same terms node.engine) (λ a. refl),
      read_relayed index_stats_request (engine_stats cfg) index_figures index_stats_of refl refl
          (stats_same node.engine) (λ a. refl),
      rw (wire.delivers ready_request s refl, wire.unchanged s)
          (elim (Bool-cases (is_ready node.engine.state)) [ inl up ↦ rw up | inr down ↦ rw down ]),
      rw (wire.delivers node_status_request s refl, wire.unchanged s),
    )

    -- Let requests be delivered to a node that embeds in a space compatible with that of the
    -- query. A semantic search for 1 to 100 results gives what the node's engine gives, with a
    -- failure turned into ShardUnavailableError, and changes nothing.
    pub http_client-semantic_search :
        (vector : vs.V) (limit : ℕ) (identity own : SemanticIdentity)
        → in_limits limit ≡ true
        → node.semantic_identity ≡ some own
        → is_compatible_with own identity ≡ true
        → client.semantic_search vector limit identity s
          ≡ (relayed (semantic_search cfg vector limit node.engine).0, s)
    unfolding http_client serve semantic_on_node
    http_client-semantic_search vector limit identity own fits known same =
        read_relayed (semantic_search_request vector limit identity)
          (semantic_search cfg vector limit) found results_of refl (rw (fits, known, same))
          (semantic_search_same vector limit node.engine) (λ a. refl)

    -- A client of a node that is ready and in sync relays.
    pub http_client-Relays :
        (limit : ℕ)
        → in_limits limit ≡ true
        → is_ready node.engine.state ≡ true
        → InSync cfg node.engine
        → Relays S cfg client node.engine limit s
    unfolding engine_corpus_stats
    http_client-Relays limit fits serving y = record {
      relays_stats = λ terms.
          (http_client_reads [] limit (corpus_stats node.engine.index []) terms fits).1
          ∙ rw serving;
      relays_search = λ query stats.
          (http_client_reads query limit stats [] fits).0
          ∙ rw (search-ok cfg node.engine query limit (some stats) serving y);
    }
