-- ===== src/Http.antt =====
-- What the nodes send each other over HTTP: app/api/internal.py's requests and answers, and how
-- app/main.py turns an exception into a status. A message is data here: its method, path and JSON
-- body are one constructor.
pub mod Internal
pub mod Client
pub mod Relaying
pub mod Reading
pub mod Writing
pub mod Links
pub mod Guards
use pysearch.Base.{
  ℕ, Str, Bool, List, Error, Result, ok, err, invalid_document, document_not_found,
  engine_not_ready, index_invariant, storage_error, embedding_error, vector_index_error,
  semantic_disabled, key_error, value_error, index_error, shard_unavailable, shard_timeout,
  replication_error, distributed_search, copies_exhausted,
}
use pysearch.Float.{Float}
use pysearch.Document.{Document}
use pysearch.Results.{SearchResults}
use pysearch.Index.{CorpusStats}
use pysearch.Ranking.{IndexStats}
use pysearch.Engine.{Outcome}
use pysearch.Cluster.{SemanticIdentity, NodeStatus}

-- A request to a node: the routes of the internal router, and /ready.
pub data Request (V : Type 0) : Type 0 where
  put_document_request : Str → Str → Request V
  delete_document_request : Str → Request V
  search_request : Str → ℕ → CorpusStats → Request V
  corpus_stats_request : List Str → Request V
  semantic_search_request : V → ℕ → SemanticIdentity → Request V
  index_stats_request : Request V
  ready_request : Request V
  node_status_request : Request V
  replicate_document_request : Str → Str → ℕ → Request V
  replicate_delete_request : Str → ℕ → Request V
  export_request : Request V
  resynchronize_request : Request V

-- The JSON body of an answer. `detail` is the body that explains a refusal.
pub data Payload (F : Type 0) (I : Type 0) : Type 0 where
  no_content detail : Payload F I
  indexed : Str → Bool → Payload F I
  found : SearchResults F → Payload F I
  statistics : CorpusStats → Payload F I
  index_figures : I → Payload F I
  reported_ready : Bool → Payload F I
  node_state : NodeStatus → Payload F I
  replicated : Outcome → ℕ → Payload F I
  resynchronized : ℕ → Payload F I
  snapshot : ℕ → List Document → Payload F I

pub record Response (P : Type 0) : Type 0 where
  pub status_code : ℕ
  pub body : P

-- `_register_error_handlers`: the status of an exception that a handler of a route raises. The
-- classes without a handler are answered by the framework, with 500.
abbrev pub error_status : Error → ℕ
error_status document_not_found = 404
error_status invalid_document = 400
error_status engine_not_ready = 503
error_status storage_error = 503
error_status shard_unavailable = 503
error_status shard_timeout = 503
error_status replication_error = 503
error_status (distributed_search _) = 503
error_status (copies_exhausted _) = 503
error_status semantic_disabled = 503
error_status embedding_error = 503
error_status vector_index_error = 503
error_status index_invariant = 500
error_status key_error = 500
error_status value_error = 500
error_status index_error = 500

-- A handler's value becomes an answer, and its exception the answer of `error_status`.
abbrev pub respond {ℓ} :
    {A P : Type 0} {S : Type ℓ} → P → (A → Response P) → Result A × S → Response P × S
respond refusal answer (ok a, s) = (answer a, s)
respond refusal answer (err error, s) =
    (record { status_code = error_status error; body = refusal }, s)

abbrev pub answered_with : {A P : Type 0} → ℕ → (A → P) → A → Response P
answered_with status body a = record { status_code = status; body = body a }

-- HTTPException, and the framework's refusal of a request whose fields are out of range
abbrev pub refused {ℓ} : {P : Type 0} {S : Type ℓ} → P → ℕ → S → Response P × S
refused refusal status s = (record { status_code = status; body = refusal }, s)
