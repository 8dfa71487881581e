-- ===== src/Http/Client.antt =====
-- HttpShardClient of app/cluster/client.py and HttpNodeLink of app/cluster/replication.py. The
-- HTTP library is the parameter `Transport`: what a request to one node does to the state of the
-- nodes, and what comes back.
use pysearch.Base.{
  ℕ, Str, Bool, true, false, ◌&&◌, List, [], ◌∷◌, if◌then◌else◌, leb, ◌==◌, Result, ok, err, Exec,
  pure, lift, ◌>>=◌, ◌>>◌, continue, document_not_found, key_error, shard_timeout,
  shard_unavailable, and_then,
}
use pysearch.Float.{Float}
use pysearch.Document.{Document, make_document}
use pysearch.Results.{SearchResults}
use pysearch.Index.{CorpusStats}
use pysearch.Ranking.{IndexStats}
use pysearch.Cluster.{ShardClient, NodeStatus}
use pysearch.Cluster.Replication.{ReplicationTarget, PrimarySource}
use pysearch.Http.{
  Request, Payload, Response, put_document_request, delete_document_request, search_request,
  corpus_stats_request, semantic_search_request, index_stats_request, ready_request,
  node_status_request, replicate_document_request, replicate_delete_request, export_request,
  indexed, found, statistics, index_figures, node_state, snapshot,
}

-- What the HTTP library gives back: TimeoutException, another HTTPError, or an answer.
pub data Reply (P : Type 0) : Type 0 where
  timed_out transport_error : Reply P
  answered : Response P → Reply P

-- What a request to one node does to the state of the nodes.
abbrev pub Transport : Type 0 → Float → Type 0 → Type 0
Transport S fl V = Request V → S → Reply (Payload fl.F (IndexStats fl)) × S

module _ {S P : Type 0} where
  -- `expected_absent` lets a 404 through.
  unfoldable pub translate : Bool → Reply P × S → Result (Response P) × S
  translate expected_absent (timed_out, s) = (err shard_timeout, s)
  translate expected_absent (transport_error, s) = (err shard_unavailable, s)
  translate expected_absent (answered response, s) =
      if expected_absent && response.status_code == 404
      then (ok response, s)
      else if leb 400 response.status_code
      then (err shard_unavailable, s)
      else (ok response, s)

  -- is_ready
  unfoldable pub ready_from : Reply P × S → Result Bool × S
  ready_from (timed_out, s) = (ok false, s)
  ready_from (transport_error, s) = (ok false, s)
  ready_from (answered response, s) = (ok (response.status_code == 200), s)

-- What `delete_document` makes of an answer: a 404 that was let through is DocumentNotFoundError.
abbrev pub unless_absent : {P : Type 0} → Response P → Result (Unit {0})
unless_absent response = if response.status_code == 404 then err document_not_found else ok tt

abbrev pub deleted_from : {S P : Type 0} → Result (Response P) × S → Result (Unit {0}) × S
deleted_from (r, s) = (and_then r unless_absent, s)

-- The fields that the methods read of a body; a field that is not there is a KeyError.
module _ {F I : Type 0} where
  abbrev pub created_of : Payload F I → Result Bool
  created_of (indexed document_id created) = ok created
  created_of _ = err key_error

  abbrev pub results_of : Payload F I → Result (SearchResults F)
  results_of (found results) = ok results
  results_of _ = err key_error

  abbrev pub statistics_of : Payload F I → Result CorpusStats
  statistics_of (statistics stats) = ok stats
  statistics_of _ = err key_error

  abbrev pub index_stats_of : Payload F I → Result I
  index_stats_of (index_figures stats) = ok stats
  index_stats_of _ = err key_error

  abbrev pub status_in : Payload F I → Result NodeStatus
  status_in (node_state status) = ok status
  status_in _ = err key_error

  abbrev pub snapshot_in : Payload F I → Result (List Document × ℕ)
  snapshot_in (snapshot generation documents) = ok (documents, generation)
  snapshot_in _ = err key_error

-- [Document(document_id=…, text=…) for entry in payload["documents"]]
unfoldable pub documents_in : (ℕ → Bool) → List Document → Result (List Document)
documents_in is_space [] = ok []
documents_in is_space (entry ∷ entries) =
    let rest = documents_in is_space entries in
    and_then (make_document is_space entry.document_id entry.text)
      λ document. and_then rest (λ documents. ok (document ∷ documents))

module _ {S : Type 0} {fl : Float} {V : Type 0} where
  module _ (http : Transport S fl V) where
    -- _request, and the body of the answer
    unfoldable pub request : Request V → Exec S (Payload fl.F (IndexStats fl))
    unfolding translate
    request asked s =
        continue {0, 0, 0} (translate false (http asked s)).0 (λ response. pure response.body)
          (translate false (http asked s)).1

    unfoldable pub request_delete : Str → Exec S (Unit {0})
    unfolding translate
    request_delete document_id s =
        deleted_from (translate true (http (delete_document_request document_id) s))

    -- HttpShardClient
    unfoldable pub http_client : ShardClient S fl V
    unfolding request request_delete ready_from
    http_client = record {
      put_document = λ document.
          request (put_document_request document.document_id document.text) >>= λ body.
          lift (created_of body);
      delete_document = λ document_id. request_delete document_id;
      search = λ query limit stats.
          request (search_request query limit stats) >>= λ body. lift (results_of body);
      corpus_stats =
          λ terms. request (corpus_stats_request terms) >>= λ body. lift (statistics_of body);
      semantic_search = λ vector limit identity.
          request (semantic_search_request vector limit identity) >>= λ body.
          lift (results_of body);
      index_stats = request index_stats_request >>= λ body. lift (index_stats_of body);
      is_ready = λ s. ready_from (http ready_request s);
      node_status = request node_status_request >>= λ body. lift (status_in body);
    }

    -- HttpNodeLink, as a primary uses it on a replica
    unfoldable pub replica_link : ReplicationTarget S
    unfolding request
    replica_link = record {
      apply_put = λ document generation.
          request (replicate_document_request document.document_id document.text generation)
          >> pure tt;
      apply_delete = λ document_id generation.
          request (replicate_delete_request document_id generation) >> pure tt;
    }

    -- HttpNodeLink, as a replica uses it on its primary: what it gets in a state of the nodes
    unfoldable pub primary_link : (ℕ → Bool) → S → PrimarySource
    unfolding request
    primary_link is_space s = record {
      generation =
          and_then (request node_status_request s).0
            λ body. and_then (status_in body) (λ status. ok status.generation);
      exported = and_then (request export_request s).0 λ body.
          and_then (snapshot_in body) λ (entries, generation).
            and_then (documents_in is_space entries) (λ documents. ok (documents, generation));
    }
