-- ===== src/Http/Links.antt =====
-- HttpNodeLink between the copies of a shard: over HTTP a replica does what `replica_node` says,
-- and a primary gives its own generation and snapshot.
use pysearch.Base.{
  ℕ, Bool, true, false, List, [], ◌∷◌, ◌≡◌, refl, ap, ◌∙◌, leb, values, All, Result, ok, err, inl,
  inr, Bool-cases, pure, ◌>>◌,
}
use pysearch.Float.{Float}
use pysearch.Document.{Document, is_blank, make_document}
use pysearch.VectorIndex.{Vectors}
use pysearch.Engine.{
  Config, Engine, Outcome, applied, duplicate, gap, apply_replicated_put, apply_replicated_delete,
  is_ready, export_snapshot,
}
use pysearch.Cluster.Replication.{ReplicationTarget, PrimarySource, served, replica_node}
use pysearch.Http.{
  Request, replicate_document_request, replicate_delete_request, export_request,
  node_status_request,
}
use pysearch.Http.Internal.{
  Node, primary_of, replica_of, serve, replicated_response, put_on_replica, delete_on_replica,
  export_from_primary,
}
use pysearch.Http.Client.{
  Transport, answered, translate, request, replica_link, primary_link, documents_in,
}
use pysearch.Http.Relaying.{Delivers, routed, is_path_safe, relayed, refuses}

module _ {fl : Float} {vs : Vectors fl} (cfg : Config vs) (is_space : ℕ → Bool) {T : Type 0}
    (target : ReplicationTarget T) {S : Type 0} {http : Transport S fl vs.V}
    {node_in : S → Node vs T} {with_node : Node vs T → S → S}
    (wire : Delivers cfg is_space target http node_in with_node) (s : S) where
  abbrev node : Node vs T
  node = node_in s

  abbrev with_engine : Engine vs → S
  with_engine e = with_node (record node { engine = e }) s

  -- What the primary makes of a replica's answer.
  replicated-served :
      (asked : Request vs.V) (m : Result Outcome × Engine vs)
      → http asked s ≡ (
        answered (replicated_response cfg is_space target (m.0, record node { engine = m.1 })).0,
        with_node (replicated_response cfg is_space target (m.0, record node { engine = m.1 })).1 s,
      )
      → (request http asked >> pure tt) s
        ≡ ((served cfg m).0, with_node (record node { engine = (served cfg m).1 }) s)
  unfolding request translate replicated_response
  replicated-served asked (ok applied, e) h = rw h
  replicated-served asked (ok duplicate, e) h = rw h
  replicated-served asked (ok gap, e) h = rw h
  replicated-served asked (err error, e) h = rw (h, refuses error)

  -- Let requests be delivered to a replica, and let the identifier of a document be one that a URL
  -- carries unchanged and that is not blank, and a generation be positive. Replicating a write or
  -- a deletion of it over HTTP does to the replica what `replica_node` does to its engine, and
  -- gives its primary the same result.
  pub replica_link-replica_node :
      (source : PrimarySource) (x : Document) (generation : ℕ)
      → node.duty ≡ replica_of source
      → is_path_safe x.document_id ≡ true
      → is_blank is_space x.document_id ≡ false
      → leb 1 generation ≡ true
      → ((replica_link http).apply_put x generation s ≡ (
        ((replica_node cfg).apply_put x generation node.engine).0,
        with_engine ((replica_node cfg).apply_put x generation node.engine).1,
      ))
        × ((replica_link http).apply_delete x.document_id generation s ≡ (
          ((replica_node cfg).apply_delete x.document_id generation node.engine).0,
          with_engine ((replica_node cfg).apply_delete x.document_id generation node.engine).1,
        ))
  unfolding replica_link serve put_on_replica delete_on_replica make_document
  replica_link-replica_node source x generation duty safe named counted =
      let put = put_on_replica cfg is_space target x.document_id x.text generation in
      let stored = apply_replicated_put cfg x generation node.engine in
      let answer_put : put (replica_of source) node
          ≡ replicated_response cfg is_space target (stored.0, record node { engine = stored.1 }) =
        rw (counted, named) in
      let delete = delete_on_replica cfg is_space target x.document_id generation in
      let erased = apply_replicated_delete cfg x.document_id generation node.engine in
      let answer_delete : delete (replica_of source) node
          ≡ replicated_response cfg is_space target (erased.0, record node { engine = erased.1 }) =
        rw counted in
      let asked_put = replicate_document_request x.document_id x.text generation in
      let asked_delete = replicate_delete_request x.document_id generation in
      (
        replicated-served asked_put stored (
            routed cfg is_space target wire s asked_put put (replica_of source) safe refl duty
            ∙ ap (λ r. (answered r.0, with_node r.1 s)) answer_put),
        replicated-served asked_delete erased (
            routed cfg is_space target wire s asked_delete delete (replica_of source) safe refl duty
            ∙ ap (λ r. (answered r.0, with_node r.1 s)) answer_delete),
      )

documents_in-ok :
    (is_space : ℕ → Bool) (documents : List Document)
    → All (λ x. is_blank is_space x.document_id ≡ false) documents
    → documents_in is_space documents ≡ ok documents
unfolding documents_in make_document
documents_in-ok is_space [] h = refl
documents_in-ok is_space (x ∷ documents) h = rw (h.0, documents_in-ok is_space documents h.1)

module _ {fl : Float} {vs : Vectors fl} (cfg : Config vs) (is_space : ℕ → Bool) {T : Type 0}
    (target : ReplicationTarget T) {S : Type 0} {http : Transport S fl vs.V}
    {node_in : S → Node vs T} {with_node : Node vs T → S → S}
    (wire : Delivers cfg is_space target http node_in with_node) (s : S) where
  -- Let requests be delivered to a primary whose documents have identifiers that are not blank. Over
  -- HTTP a replica gets the generation of the primary's engine, and its snapshot with a failure
  -- turned into ShardUnavailableError.
  pub primary_link_reads :
      (targets : List T)
      → (node_in s).duty ≡ primary_of targets
      → All (λ x. is_blank is_space x.document_id ≡ false) (values (node_in s).engine.documents)
      → ((primary_link http is_space s).generation ≡ ok (node_in s).engine.generation)
        × ((primary_link http is_space s).exported
            ≡ relayed (export_snapshot cfg (node_in s).engine).0)
  unfolding primary_link request translate serve export_from_primary export_snapshot
  primary_link_reads targets duty named =
      let engine = (node_in s).engine in
      let asked =
        routed cfg is_space target wire s export_request (export_from_primary cfg is_space target)
          (primary_of targets) refl refl duty in
      (
        rw (wire.delivers node_status_request s refl),
        elim (Bool-cases (is_ready engine.state)) [
          | inl serving ↦
              rw (asked, serving, documents_in-ok is_space (values engine.documents) named)
          | inr idle ↦ rw (asked, idle)
        ],
      )
