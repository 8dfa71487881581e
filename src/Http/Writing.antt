-- ===== src/Http/Writing.antt =====
-- HttpShardClient's writes against the application of the node it speaks to.
use pysearch.Base.{ℕ, leb, Str, Bool, true, false, List, ◌≡◌, refl, ap, ◌∙◌, Result}
use pysearch.Float.{Float}
use pysearch.Document.{Document, is_blank, make_document}
use pysearch.Ranking.{IndexStats}
use pysearch.VectorIndex.{Vectors}
use pysearch.Engine.{Config, Engine}
use pysearch.Cluster.{ShardClient}
use pysearch.Cluster.Replication.{ReplicationTarget, write_document, erase_document}
use pysearch.Http.{
  Payload, put_document_request, delete_document_request, detail, respond, answered_with,
  no_content,
}
use pysearch.Http.Internal.{
  Node, primary_of, serve, put_on_primary, delete_on_primary, as_writer, created_status,
}
use pysearch.Http.Client.{Transport, answered, http_client, created_of}
use pysearch.Http.Relaying.{
  Delivers, routed, is_path_safe, relayed, relayed_delete, request-respond, respond-state,
  request_delete-respond,
}

module _ {fl : Float} {vs : Vectors fl} (cfg : Config vs) (is_space : ℕ → Bool) {T : Type 0}
    (target : ReplicationTarget T) {S : Type 0} {http : Transport S fl vs.V}
    {node_in : S → Node vs T} {with_node : Node vs T → S → S}
    (wire : Delivers cfg is_space target http node_in with_node) (s : S) where
  abbrev client : ShardClient S fl vs.V
  client = http_client http

  abbrev node : Node vs T
  node = node_in s

  created_below :
      (document_id : Str) (b : Bool)
      → leb 400 (created_status {fl = fl} document_id b).status_code ≡ false
  created_below document_id true = refl
  created_below document_id false = refl

  -- The node after a write by its primary's replicator.
  abbrev pub written : {A : Type 0} → Result A × (Engine vs × List T) → S
  written (r, (e, targets)) = with_node (record node { engine = e; duty = primary_of targets }) s

  -- Let requests be delivered to a primary, and let the identifier of a document be one that a URL
  -- carries unchanged and that is not blank. Storing it and deleting it do to the primary and its
  -- replicas what its replicator does. The client gets the replicator's result, with a failure
  -- turned into ShardUnavailableError, but for the deletion of a document that is not there,
  -- which it gets as such.
  pub http_client_writes :
      (x : Document) (targets : List T)
      → node.duty ≡ primary_of targets
      → is_path_safe x.document_id ≡ true
      → is_blank is_space x.document_id ≡ false
      → (client.put_document x s ≡ (
        relayed (write_document cfg target x (node.engine, targets)).0,
        written (write_document cfg target x (node.engine, targets)),
      ))
        × (client.delete_document x.document_id s ≡ (
          relayed_delete (erase_document cfg target x.document_id (node.engine, targets)).0,
          written (erase_document cfg target x.document_id (node.engine, targets)),
        ))
  unfolding http_client serve put_on_primary make_document delete_on_primary
  http_client_writes x targets duty safe named =
      let asked = put_document_request x.document_id x.text in
      let answer = created_status {fl = fl} x.document_id in
      let stored = as_writer targets (write_document cfg target x) node in
      let made : put_on_primary cfg is_space target x.document_id x.text (primary_of targets) node
          ≡ respond detail answer stored =
        rw named in
      let absent =
        answered_with {A = Unit {0}} {P = Payload fl.F (IndexStats fl)} 204 (λ _. no_content) in
      let erased = as_writer targets (erase_document cfg target x.document_id) node in
      (
        request-respond http asked s _ answer created_of stored
            (routed cfg is_space target wire s asked
                (put_on_primary cfg is_space target x.document_id x.text) (primary_of targets) safe
                refl duty
              ∙ ap (λ p. (answered p.0, with_node p.1 s)) made
              ∙ ap (λ n. (answered (respond detail answer stored).0, with_node n s))
                  (respond-state detail answer stored))
            (created_below x.document_id) (λ created. refl),
        request_delete-respond http x.document_id s _ erased (
            routed cfg is_space target wire s (delete_document_request x.document_id)
              (delete_on_primary cfg is_space target x.document_id) (primary_of targets) safe refl
              duty
            ∙ ap (λ n. (answered (respond detail absent erased).0, with_node n s))
                (respond-state detail absent erased)),
      )
