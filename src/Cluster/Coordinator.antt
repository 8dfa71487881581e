-- ===== src/Cluster/Coordinator.antt =====
-- app/cluster/coordinator.py: the operations of the coordinator. Each takes the coordinator's lock
-- and is one action on the state of the nodes. The requests of one fan-out are made in the order of
-- the shards here; every one of them is made, whatever the others answer.
use pysearch.Base.{
  ℕ, ◌+◌, Str, Bool, true, false, not, Option, none, some, List, [], ◌∷◌, map, contains, length,
  take, sum, sorted, str_le, concat_map, if◌then◌else◌, ◌==◌, is_cluster_error, Result, ok, err,
  Exec, pure, raise, lift, ◌>>=◌, distributed_search, copies_exhausted, semantic_disabled,
  index_error, value_error, embedding_error,
}
use pysearch.Float.{Float}
use pysearch.Document.{Document}
use pysearch.Analysis.{Unicode, analyze}
use pysearch.Results.{SearchResults, hit_le}
use pysearch.Index.{CorpusStats, merge_corpus_stats}
use pysearch.Ranking.{IndexStats}
use pysearch.Cluster.{SemanticIdentity, ShardClient, ShardCopies, serving_order, copies_for}
use pysearch.Cluster.Routing.{ShardRouter, shard_for}

-- Every request of a fan-out is made; `return_exceptions` keeps what each raised.
unfoldable pub run_all {ℓ} : {S : Type 0} {A : Type ℓ} → List (Exec S A) → S → List (Result A) × S
run_all [] s = ([], s)
run_all (ask ∷ asks) s =
    let (outcome, s') = ask s in let (outcomes, s'') = run_all asks s' in (outcome ∷ outcomes, s'')

module _ {ℓ} {A : Type ℓ} where
  abbrev pub answers : List (Result A) → List A
  answers [] = []
  answers (ok a ∷ outcomes) = a ∷ answers outcomes
  answers (err _ ∷ outcomes) = answers outcomes

  abbrev pub failed_shards : ℕ → List (Result A) → List ℕ
  failed_shards shard_id [] = []
  failed_shards shard_id (ok _ ∷ outcomes) = failed_shards (shard_id + 1) outcomes
  failed_shards shard_id (err _ ∷ outcomes) = shard_id ∷ failed_shards (shard_id + 1) outcomes

  unfoldable pub all_or_none : List ℕ → List A → Result (List A)
  all_or_none [] results = ok results
  all_or_none (shard_id ∷ failed) results = err (distributed_search (shard_id ∷ failed))

  -- _gather
  unfoldable pub gather : {S : Type 0} → List (Exec S A) → Exec S (List A)
  unfolding run_all all_or_none
  gather awaitables s =
      let (outcomes, s') = run_all awaitables s in
      (all_or_none (failed_shards 0 outcomes) (answers outcomes), s')

module _ {S : Type 0} {fl : Float} {V : Type 0} where
  -- The loop of `_stats_from_any_copy`, `_semantic_from_any_copy` and `_index_stats_from_any_copy`:
  -- a ClusterError moves on to the next copy, and any other error ends the loop.
  unfoldable pub from_any_copy {ℓ} :
      {A : Type ℓ} → (ShardClient S fl V → Exec S A) → ℕ → List (ShardClient S fl V) → Exec S A
  from_any_copy ask shard_id [] s = (err (copies_exhausted shard_id), s)
  from_any_copy ask shard_id (client ∷ clients) s =
      let rest = from_any_copy ask shard_id clients (ask client s).1 in
      elim (ask client s).0 [
        | ok answer ↦ (ok answer, (ask client s).1)
        | err error ↦ if is_cluster_error error then rest else (err error, (ask client s).1)
      ]

  -- _stats_from_any_copy: the copy that answered, with its answer
  unfoldable pub stats_from_any_copy :
      List Str → ShardCopies S fl V → Exec S (ShardClient S fl V × CorpusStats)
  stats_from_any_copy terms copies =
      from_any_copy (λ client. client.corpus_stats terms >>= λ stats. pure (client, stats))
        copies.shard_id (serving_order copies)

  unfoldable pub semantic_from_any_copy :
      V → ℕ → SemanticIdentity → ShardCopies S fl V → Exec S (SearchResults fl.F)
  semantic_from_any_copy vector limit identity copies =
      from_any_copy (λ client. client.semantic_search vector limit identity) copies.shard_id
        (serving_order copies)

  unfoldable pub index_stats_from_any_copy : ShardCopies S fl V → Exec S (IndexStats fl)
  index_stats_from_any_copy copies =
      from_any_copy (λ client. client.index_stats) copies.shard_id (serving_order copies)

  -- _shard_has_serving_copy
  unfoldable pub any_copy_ready : List (ShardClient S fl V) → Exec S Bool
  any_copy_ready [] s = (ok false, s)
  any_copy_ready (client ∷ clients) s =
      let rest = any_copy_ready clients (client.is_ready s).1 in
      elim (client.is_ready s).0 [
        | ok ready ↦ if ready then (ok true, (client.is_ready s).1) else rest
        | err error ↦ if is_cluster_error error then rest else (err error, (client.is_ready s).1)
      ]

-- sorted(set(terms))
unfoldable pub distinct_terms : List Str → List Str
distinct_terms [] = []
distinct_terms (term ∷ terms) =
    let rest = distinct_terms terms in if contains term terms then rest else term ∷ rest

unfoldable pub unique_terms : List Str → List Str
unfolding distinct_terms
unique_terms terms = sorted str_le (distinct_terms terms)

module _ (fl : Float) where
  -- _merge
  unfoldable pub merge : List (SearchResults fl.F) → ℕ → SearchResults fl.F
  merge shard_results limit = record {
    total = sum (map (λ results. results.total) shard_results);
    results =
        take limit (sorted (hit_le fl) (concat_map (λ results. results.results) shard_results));
  }

-- The model behind `Embedder`, for queries; `none` is its EmbeddingError.
pub record QueryEmbedder (V : Type 0) : Type 0 where
  pub identity : SemanticIdentity
  pub embed_query : Str → Option V

module _ (S : Type 0) (fl : Float) (V : Type 0) where
  pub record Coordinator : Type 0 where
    pub digest : Str → ℕ
    pub unicode : Unicode
    pub router : ShardRouter
    pub topology : List (ShardCopies S fl V)
    pub embedder : Option (QueryEmbedder V)

module _ {S : Type 0} {fl : Float} {V : Type 0} where
  -- Coordinator(router, topology, embedder)
  unfoldable pub new_coordinator :
      (Str → ℕ)
      → Unicode
      → ShardRouter
      → List (ShardCopies S fl V)
      → Option (QueryEmbedder V)
      → Result (Coordinator S fl V)
  new_coordinator digest unicode router topology embedder =
      if not (length topology == router.shard_count)
      then err value_error
      else ok (record {
        digest = digest;
        unicode = unicode;
        router = router;
        topology = topology;
        embedder = embedder;
      })

  module _ (c : Coordinator S fl V) where
    -- The primary of the shard that owns a document.
    unfoldable pub owner_of : Str → Result (ShardClient S fl V)
    owner_of document_id = elim (copies_for c.topology (shard_for c.digest c.router document_id)) [
      | none ↦ err index_error
      | some copies ↦ ok copies.primary
    ]

    unfoldable pub route_put : Document → Exec S Bool
    route_put document =
        lift (owner_of document.document_id) >>= λ primary. primary.put_document document

    unfoldable pub route_delete : Str → Exec S (Unit {0})
    route_delete document_id =
        lift (owner_of document_id) >>= λ primary. primary.delete_document document_id

    -- _select_and_collect
    unfoldable pub select_and_collect : List Str → Exec S (List (ShardClient S fl V × CorpusStats))
    select_and_collect terms = gather (map (stats_from_any_copy terms) c.topology)

    -- _fan_out_search
    unfoldable pub fan_out_search :
        Str → ℕ → CorpusStats → List (ShardClient S fl V) → Exec S (List (SearchResults fl.F))
    fan_out_search query limit stats pinned =
        gather (map (λ client. client.search query limit stats) pinned)

    unfoldable pub search_selected :
        Str → ℕ → List (ShardClient S fl V × CorpusStats) → Exec S (SearchResults fl.F)
    search_selected query limit selection =
        let stats = merge_corpus_stats (map (λ p. p.1) selection) in
        if stats.document_count == 0
        then pure (record { total = 0; results = [] })
        else (fan_out_search query limit stats (map (λ p. p.0) selection) >>= λ shard_results.
            pure (merge fl shard_results limit))

    -- _search_locked
    unfoldable pub search_rounds : Str → List Str → ℕ → Exec S (SearchResults fl.F)
    unfolding search_selected
    search_rounds query terms limit =
        select_and_collect terms >>= λ selection. search_selected query limit selection

    -- search
    unfoldable pub distributed_search_for : Str → ℕ → Exec S (SearchResults fl.F)
    distributed_search_for query limit =
        let terms = analyze c.unicode query in
        if length terms == 0
        then pure (record { total = 0; results = [] })
        else search_rounds query (unique_terms terms) limit

    -- _semantic_search_locked
    unfoldable pub semantic_round : V → ℕ → SemanticIdentity → Exec S (SearchResults fl.F)
    semantic_round vector limit identity =
        gather (map (semantic_from_any_copy vector limit identity) c.topology) >>= λ shard_results.
        pure (merge fl shard_results limit)

    -- semantic_search
    unfoldable pub distributed_semantic_search : Str → ℕ → Exec S (SearchResults fl.F)
    distributed_semantic_search query limit = elim c.embedder [
      | none ↦ raise semantic_disabled
      | some embedder ↦ elim (embedder.embed_query query) [
        | none ↦ raise embedding_error
        | some vector ↦ semantic_round vector limit embedder.identity
      ]
    ]
