-- ===== src/Http/Internal.antt =====
-- app/api/internal.py on a shard node: its routes, and the two roles that app/main.py gives it. A
-- node is its engine with the half of the replication protocol that its role plays.
use pysearch.Base.{
  ℕ, Str, Bool, ◌&&◌, Option, none, some, List, if◌then◌else◌, leb, Result, Exec, lift, ◌>>=◌,
}
use pysearch.Float.{Float}
use pysearch.Document.{make_document}
use pysearch.Ranking.{IndexStats}
use pysearch.VectorIndex.{Vectors}
use pysearch.Engine.{
  Config, Engine, Outcome, applied, duplicate, gap, is_ready, apply_replicated_put,
  apply_replicated_delete, export_snapshot,
}
use pysearch.Engine.Query.{search, engine_corpus_stats, engine_stats, semantic_search}
use pysearch.Cluster.{SemanticIdentity, NodeStatus, is_compatible_with}
use pysearch.Cluster.Replication.{
  ReplicationTarget, PrimarySource, SyncOutcome, write_document, erase_document, repair,
}
use pysearch.Http.{
  Request, Payload, Response, put_document_request, delete_document_request, search_request,
  corpus_stats_request, semantic_search_request, index_stats_request, ready_request,
  node_status_request, replicate_document_request, replicate_delete_request, export_request,
  resynchronize_request, no_content, detail, indexed, found, statistics, index_figures,
  reported_ready, node_state, replicated, resynchronized, snapshot, respond, answered_with, refused,
}

-- What `_attach_replication_role` attaches to the application: a replicator to the replicas, or a
-- synchronizer with the primary.
pub data Duty (T : Type 0) : Type 0 where
  primary_of : List T → Duty T
  replica_of : PrimarySource → Duty T

module _ {fl : Float} (vs : Vectors fl) where
  -- The settings that a node reports, its embedder's identity, its engine, and its duty.
  pub record Node (T : Type 0) : Type 0 where
    pub node_id : Str
    pub shard_id : ℕ
    pub replica_role : Str
    pub semantic_identity : Option SemanticIdentity
    pub engine : Engine vs
    pub duty : Duty T

abbrev pub Answer : Float → Type 0
Answer fl = Response (Payload fl.F (IndexStats fl))

-- Field(ge=1, le=MAX_LIMIT)
abbrev pub in_limits : ℕ → Bool
in_limits limit = leb 1 limit && leb limit 100

module _ {fl : Float} {vs : Vectors fl} {T : Type 0} where
  -- A method of the node's engine.
  abbrev pub on_engine : {A : Type 0} → Exec (Engine vs) A → Exec (Node vs T) A
  on_engine m node = let (r, e) = m node.engine in (r, record node { engine = e })

  -- node_status
  abbrev pub status_of : Node vs T → NodeStatus
  status_of node = record {
    node_id = node.node_id;
    shard_id = node.shard_id;
    replica_role = node.replica_role;
    state = node.engine.state;
    ready = is_ready node.engine.state;
    generation = node.engine.generation;
  }

  -- A method of the primary's replicator, on the engine and the replicas.
  abbrev pub as_writer : {A : Type 0} → List T → Exec (Engine vs × List T) A → Exec (Node vs T) A
  as_writer targets m node =
      let (r, (e, targets')) = m (node.engine, targets) in
      (r, record node { engine = e; duty = primary_of targets' })

abbrev pub created_status : {fl : Float} → Str → Bool → Answer fl
created_status document_id created = record {
  status_code = if created then 201 else 200;
  body = indexed document_id created;
}

module _ {fl : Float} {vs : Vectors fl} (cfg : Config vs) (is_space : ℕ → Bool) {T : Type 0}
    (target : ReplicationTarget T) where
  -- index_document
  unfoldable pub put_on_primary : Str → Str → Duty T → Node vs T → Answer fl × Node vs T
  put_on_primary document_id text (replica_of source) node = refused detail 409 node
  put_on_primary document_id text (primary_of targets) node =
      respond detail (created_status document_id) (
        (lift (make_document is_space document_id text) >>= λ document.
        as_writer targets (write_document cfg target document))
          node)

  -- delete_document
  unfoldable pub delete_on_primary : Str → Duty T → Node vs T → Answer fl × Node vs T
  delete_on_primary document_id (replica_of source) node = refused detail 409 node
  delete_on_primary document_id (primary_of targets) node =
      respond detail (answered_with 204 (λ _. no_content))
        (as_writer targets (erase_document cfg target document_id) node)

  -- _replication_response
  abbrev replication_response : Outcome → ℕ → Answer fl
  replication_response gap generation = record { status_code = 409; body = detail }
  replication_response applied generation = record {
    status_code = 200;
    body = replicated applied generation;
  }
  replication_response duplicate generation = record {
    status_code = 200;
    body = replicated duplicate generation;
  }

  unfoldable pub replicated_response : Result Outcome × Node vs T → Answer fl × Node vs T
  replicated_response (r, node) =
      respond detail (λ outcome. replication_response outcome node.engine.generation) (r, node)

  -- replicate_document and replicate_delete. A generation below one is refused by the framework.
  unfoldable pub put_on_replica : Str → Str → ℕ → Duty T → Node vs T → Answer fl × Node vs T
  unfolding replicated_response
  put_on_replica document_id text generation (primary_of targets) node = refused detail 409 node
  put_on_replica document_id text generation (replica_of source) node =
      if leb 1 generation
      then replicated_response (
          (lift (make_document is_space document_id text) >>= λ document.
          on_engine (apply_replicated_put cfg document generation))
            node)
      else refused detail 422 node

  unfoldable pub delete_on_replica : Str → ℕ → Duty T → Node vs T → Answer fl × Node vs T
  unfolding replicated_response
  delete_on_replica document_id generation (primary_of targets) node = refused detail 409 node
  delete_on_replica document_id generation (replica_of source) node =
      if leb 1 generation
      then replicated_response (on_engine (apply_replicated_delete cfg document_id generation) node)
      else refused detail 422 node

  -- export_documents
  unfoldable pub export_from_primary : Duty T → Node vs T → Answer fl × Node vs T
  export_from_primary (replica_of source) node = refused detail 409 node
  export_from_primary (primary_of targets) node =
      respond detail (answered_with 200 (λ p. snapshot p.1 p.0))
        (on_engine (export_snapshot cfg) node)

  resync_response : SyncOutcome × Engine vs → Node vs T → Answer fl × Node vs T
  resync_response (outcome, e) node = (
    if outcome.synchronized
        then record { status_code = 200; body = resynchronized outcome.local_generation }
        else record { status_code = 503; body = detail },
    record node { engine = e },
  )

  -- resynchronize
  unfoldable pub resynchronize_replica : Duty T → Node vs T → Answer fl × Node vs T
  unfolding resync_response
  resynchronize_replica (primary_of targets) node = refused detail 409 node
  resynchronize_replica (replica_of source) node =
      resync_response (repair cfg source node.engine) node

  -- semantic_search
  unfoldable pub semantic_on_node :
      vs.V → ℕ → SemanticIdentity → Option SemanticIdentity → Node vs T → Answer fl × Node vs T
  semantic_on_node vector limit identity none node = refused detail 503 node
  semantic_on_node vector limit identity (some own) node =
      if is_compatible_with own identity
      then respond detail (answered_with 200 found)
          (on_engine (semantic_search cfg vector limit) node)
      else refused detail 409 node

  -- ready, of app/api/health.py
  abbrev ready_response : Bool → Answer fl
  ready_response up = record { status_code = if up then 200 else 503; body = reported_ready up }

  -- The application of a shard node.
  unfoldable pub serve : Request vs.V → Node vs T → Answer fl × Node vs T
  serve (put_document_request document_id text) node =
      put_on_primary document_id text node.duty node
  serve (delete_document_request document_id) node = delete_on_primary document_id node.duty node
  serve (search_request query limit stats) node =
      if in_limits limit
      then respond detail (answered_with 200 found)
          (on_engine (search cfg query limit (some stats)) node)
      else refused detail 422 node
  serve (corpus_stats_request terms) node =
      respond detail (answered_with 200 statistics) (on_engine (engine_corpus_stats cfg terms) node)
  serve (semantic_search_request vector limit identity) node =
      if in_limits limit
      then semantic_on_node vector limit identity node.semantic_identity node
      else refused detail 422 node
  serve index_stats_request node =
      respond detail (answered_with 200 index_figures) (on_engine (engine_stats cfg) node)
  serve ready_request node = (ready_response (is_ready node.engine.state), node)
  serve node_status_request node =
      (record { status_code = 200; body = node_state (status_of node) }, node)
  serve (replicate_document_request document_id text generation) node =
      put_on_replica document_id text generation node.duty node
  serve (replicate_delete_request document_id generation) node =
      delete_on_replica document_id generation node.duty node
  serve export_request node = export_from_primary node.duty node
  serve resynchronize_request node = resynchronize_replica node.duty node
