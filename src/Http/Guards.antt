-- ===== src/Http/Guards.antt =====
-- What a node answers by its role and its state: the guards of app/api/dependencies.py, and the
-- refusal of a copy that is not READY.
use pysearch.Base.{
  ℕ, leb, Bool, true, false, Option, none, some, List, ◌≡◌, refl, ap, inl, inr, Bool-cases, ◌&&◌,
  ◌||◌, not, arith,
}
use pysearch.Float.{Float}
use pysearch.VectorIndex.{Vectors}
use pysearch.Engine.{Config, is_ready}
use pysearch.Engine.Query.{search, engine_corpus_stats, engine_stats, semantic_search}
use pysearch.Cluster.{SemanticIdentity, is_compatible_with}
use pysearch.Cluster.Replication.{ReplicationTarget, PrimarySource}
use pysearch.Http.{
  Request, put_document_request, delete_document_request, search_request, corpus_stats_request,
  semantic_search_request, index_stats_request, ready_request, node_status_request,
  replicate_document_request, replicate_delete_request, export_request, resynchronize_request,
  detail,
}
use pysearch.Http.Internal.{
  Duty, Node, Answer, primary_of, replica_of, serve, in_limits, put_on_primary, delete_on_primary,
  export_from_primary, put_on_replica, delete_on_replica, resynchronize_replica, semantic_on_node,
}

-- The routes with `PrimaryDep`, those with `ReplicaDep`, and those that answer queries.
abbrev pub wants_primary : {V : Type 0} → Request V → Bool
wants_primary (put_document_request _ _) = true
wants_primary (delete_document_request _) = true
wants_primary export_request = true
wants_primary _ = false

abbrev pub wants_replica : {V : Type 0} → Request V → Bool
wants_replica (replicate_document_request _ _ _) = true
wants_replica (replicate_delete_request _ _) = true
wants_replica resynchronize_request = true
wants_replica _ = false

abbrev pub is_query : {V : Type 0} → Request V → Bool
is_query (search_request _ _ _) = true
is_query (corpus_stats_request _) = true
is_query (semantic_search_request _ _ _) = true
is_query index_stats_request = true
is_query _ = false

-- The requests that a node's role keeps it from.
abbrev pub bars : {T V : Type 0} → Duty T → Request V → Bool
bars (replica_of source) asked = wants_primary asked
bars (primary_of targets) asked = wants_replica asked

module _ {fl : Float} {vs : Vectors fl} (cfg : Config vs) (is_space : ℕ → Bool) {T : Type 0}
    (target : ReplicationTarget T) (node : Node vs T) where
  abbrev conflict : Answer fl × Node vs T
  conflict = (record { status_code = 409; body = detail }, node)

  replica_conflict :
      (asked : Request vs.V) (source : PrimarySource)
      → node.duty ≡ replica_of source
      → wants_primary asked ≡ true
      → serve cfg is_space target asked node ≡ conflict
  unfolding serve put_on_primary delete_on_primary export_from_primary
  replica_conflict (put_document_request d text) source h w =
      ap (λ duty. put_on_primary cfg is_space target d text duty node) h
  replica_conflict (delete_document_request d) source h w =
      ap (λ duty. delete_on_primary cfg is_space target d duty node) h
  replica_conflict export_request source h w =
      ap (λ duty. export_from_primary cfg is_space target duty node) h
  replica_conflict (search_request _ _ _) source h w = cc
  replica_conflict (corpus_stats_request _) source h w = cc
  replica_conflict (semantic_search_request _ _ _) source h w = cc
  replica_conflict index_stats_request source h w = cc
  replica_conflict ready_request source h w = cc
  replica_conflict node_status_request source h w = cc
  replica_conflict (replicate_document_request _ _ _) source h w = cc
  replica_conflict (replicate_delete_request _ _) source h w = cc
  replica_conflict resynchronize_request source h w = cc

  primary_conflict :
      (asked : Request vs.V) (targets : List T)
      → node.duty ≡ primary_of targets
      → wants_replica asked ≡ true
      → serve cfg is_space target asked node ≡ conflict
  unfolding serve put_on_replica delete_on_replica resynchronize_replica
  primary_conflict (replicate_document_request d text generation) targets h w =
      ap (λ duty. put_on_replica cfg is_space target d text generation duty node) h
  primary_conflict (replicate_delete_request d generation) targets h w =
      ap (λ duty. delete_on_replica cfg is_space target d generation duty node) h
  primary_conflict resynchronize_request targets h w =
      ap (λ duty. resynchronize_replica cfg is_space target duty node) h
  primary_conflict (search_request _ _ _) targets h w = cc
  primary_conflict (corpus_stats_request _) targets h w = cc
  primary_conflict (semantic_search_request _ _ _) targets h w = cc
  primary_conflict index_stats_request targets h w = cc
  primary_conflict ready_request targets h w = cc
  primary_conflict node_status_request targets h w = cc
  primary_conflict (put_document_request _ _) targets h w = cc
  primary_conflict (delete_document_request _) targets h w = cc
  primary_conflict export_request targets h w = cc

  -- An answer that the caller takes for a failure, from a node that stays as it was.
  abbrev pub Refuses : Answer fl × Node vs T → Type 0
  Refuses r = (leb 400 r.0.status_code ≡ true) × (r.1 ≡ node)

  barred :
      (asked : Request vs.V) (duty : Duty T)
      → node.duty ≡ duty
      → bars duty asked ≡ true
      → Refuses (serve cfg is_space target asked node)
  barred asked (replica_of source) h w = rw (replica_conflict asked source h w) (refl, refl)
  barred asked (primary_of targets) h w = rw (primary_conflict asked targets h w) (refl, refl)

  unready_semantic :
      (vector : vs.V) (limit : ℕ) (identity : SemanticIdentity) (own : Option SemanticIdentity)
      → is_ready node.engine.state ≡ false
      → Refuses (semantic_on_node cfg is_space target vector limit identity own node)
  unfolding semantic_on_node semantic_search
  unready_semantic vector limit identity none idle = (refl, refl)
  unready_semantic vector limit identity (some own) idle =
      elim (Bool-cases (is_compatible_with own identity)) [
        | inl same ↦ rw (same, idle) (refl, refl)
        | inr other ↦ rw other (refl, refl)
      ]

  unready_query :
      (asked : Request vs.V)
      → is_query asked ≡ true
      → is_ready node.engine.state ≡ false
      → Refuses (serve cfg is_space target asked node)
  unfolding serve search engine_corpus_stats engine_stats
  unready_query (search_request query limit stats) q idle = elim (Bool-cases (in_limits limit)) [
    | inl fits ↦ rw (fits, idle) (refl, refl)
    | inr outside ↦ rw outside (refl, refl)
  ]
  unready_query (semantic_search_request vector limit identity) q idle =
      elim (Bool-cases (in_limits limit)) [
        | inl fits ↦ rw fits (unready_semantic vector limit identity node.semantic_identity idle)
        | inr outside ↦ rw outside (refl, refl)
      ]
  unready_query (corpus_stats_request terms) q idle = rw idle (refl, refl)
  unready_query index_stats_request q idle = rw idle (refl, refl)
  unready_query (put_document_request _ _) q idle = cc
  unready_query (delete_document_request _) q idle = cc
  unready_query ready_request q idle = cc
  unready_query node_status_request q idle = cc
  unready_query (replicate_document_request _ _ _) q idle = cc
  unready_query (replicate_delete_request _ _) q idle = cc
  unready_query export_request q idle = cc
  unready_query resynchronize_request q idle = cc

  -- A node answers the following with a status of 400 or more and does not change: a client's
  -- write or a request for its snapshot if it is a replica, a replicated write or a request to
  -- resynchronize if it is a primary, and every query if its engine is not ready.
  pub serve-Refuses :
      (asked : Request vs.V)
      → (bars node.duty asked || is_query asked && not (is_ready node.engine.state)) ≡ true
      → Refuses (serve cfg is_space target asked node)
  serve-Refuses asked h = elim (Bool-cases (bars node.duty asked)) [
    | inl role ↦ barred asked node.duty refl role
    | inr free ↦ unready_query asked (ground arith) (ground arith)
  ]
