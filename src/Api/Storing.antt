-- ===== src/Api/Storing.antt =====
-- A document that a client puts to the coordinator, on its way through the HTTP client of the owning
-- shard, that shard's primary, and its replicas.
use pysearch.Base.{
  ℕ, ◌+◌, Str, Bool, true, false, not, none, List, ◌≡◌, ap, All, member, put, ok, Result,
}
use pysearch.Float.{Float}
use pysearch.Document.{Document, is_blank, make_document}
use pysearch.VectorIndex.{Vectors}
use pysearch.Engine.{Config, Engine}
use pysearch.Engine.Effects.{Healthy, Stores}
use pysearch.Cluster.Coordinator.{Coordinator, owner_of, route_put}
use pysearch.Cluster.Replication.{replica_node, write_document}
use pysearch.Cluster.Replicas.{Agrees, write_document-Agrees}
use pysearch.Http.{respond}
use pysearch.Http.Internal.{Node, primary_of}
use pysearch.Http.Client.{Transport, http_client}
use pysearch.Http.Relaying.{Delivers, is_path_safe, relayed}
use pysearch.Http.Writing.{http_client_writes}
use pysearch.Api.{index_request, explanation}
use pysearch.Api.Clustered.{serve_cluster, placed_answer}

module _ {fl : Float} {vs : Vectors fl} (cfg : Config vs) (is_space : ℕ → Bool) {S : Type 0}
    {http : Transport S fl vs.V} {node_in : S → Node vs (Engine vs)}
    {with_node : Node vs (Engine vs) → S → S}
    (wire : Delivers cfg is_space (replica_node cfg) http node_in with_node) where
  -- The document that a request names, and what the primary's replicator makes of it.
  abbrev pub named : Str → Str → Document
  named document_id text = record { document_id = document_id; text = text }

  abbrev pub outcome :
      Str → Str → S → List (Engine vs) → Result Bool × (Engine vs × List (Engine vs))
  outcome document_id text s targets =
      write_document cfg (replica_node cfg) (named document_id text) ((node_in s).engine, targets)

  abbrev pub with_copies : S → Engine vs → List (Engine vs) → S
  with_copies s e targets =
      with_node (record (node_in s) { engine = e; duty = primary_of targets }) s

  -- Let the shard that owns a document have its primary behind an HTTP client whose requests are
  -- delivered; let that primary and its replicas have no embedding model, be healthy, and agree
  -- on rows and generation; and let the document's identifier be one that a URL carries unchanged
  -- and that is not blank. Then the coordinator answers a request to store the document with 201
  -- if it is new and with 200 otherwise, naming the shard. Only that node and its replicas have
  -- changed: the primary stores the document and has counted one generation, and all of the copies
  -- are healthy and agree again.
  pub put_stored :
      (c : Coordinator S fl vs.V) (document_id text : Str) (s : S) (targets : List (Engine vs))
      → cfg.embedder ≡ none
      → owner_of c document_id ≡ ok (http_client http)
      → (node_in s).duty ≡ primary_of targets
      → is_path_safe document_id ≡ true
      → is_blank is_space document_id ≡ false
      → Healthy cfg (node_in s).engine
      → All (Agrees cfg (node_in s).engine) targets
      → let e = (node_in s).engine in
        let after = (outcome document_id text s targets).1 in
        (serve_cluster c is_space (index_request document_id text) s ≡ (
          placed_answer c document_id (not (member document_id e.store.rows)),
          with_copies s after.0 after.1,
        ))
        × Stores cfg e after.0 (put document_id text e.store.rows) (e.generation + 1)
        × All (Agrees cfg after.0) after.1
  unfolding serve_cluster route_put make_document
  put_stored c document_id text s targets disabled owned duty safe present healthy agree =
      let x = named document_id text in
      let after = (outcome document_id text s targets).1 in
      let (created, stored, agreeing) =
        write_document-Agrees cfg disabled x (node_in s).engine targets healthy agree in
      let sent =
        (http_client_writes cfg is_space (replica_node cfg) wire s x targets duty safe present).0 in
      (
        rw (present, owned, sent)
            (ap
              (λ r.
                respond explanation (placed_answer c document_id)
                  (relayed r, with_copies s after.0 after.1))
              created),
        stored,
        agreeing,
      )
