-- ===== src/Api/Clustered.antt =====
-- The application of a coordinator: app/api/cluster.py, with the liveness of app/api/health.py.
use pysearch.Base.{ℕ, Str, Bool, lift, ◌>>=◌}
use mathlib.Core.Option
use pysearch.Base.{is_some}
use pysearch.Float.{Float}
use pysearch.Document.{make_document}
use pysearch.Cluster.Coordinator.{
  Coordinator, route_put, route_delete, distributed_search_for, distributed_semantic_search,
}
use pysearch.Cluster.Routing.{shard_for}
use pysearch.Cluster.Hybrid.{distributed_hybrid_search}
use pysearch.Cluster.Status.{ClusterHealth, cluster_index_stats, readiness, cluster_status}
use pysearch.Http.{respond, answered_with}
use pysearch.Api.{
  PublicRequest, PublicAnswer, index_request, removal_request, lexical_request, semantic_request,
  hybrid_request, figures_request, readiness_request, liveness_request, cluster_status_request,
  empty_body, explanation, document_placed, lexical_page, semantic_page, figures_of_cluster,
  cluster_report, limit_or, flag_or, default_fusion, limited, put_status, readiness_answer,
  liveness_answer,
}
use pysearch.Api.Single.{hybrid_answer}

module _ {S : Type 0} {fl : Float} {V : Type 0} (c : Coordinator S fl V) where
  abbrev pub placed_answer : Str → Bool → PublicAnswer fl
  placed_answer document_id created = record {
    status_code = put_status created;
    body = document_placed document_id created (shard_for c.digest c.router document_id);
  }

  abbrev pub status_answer : ClusterHealth → PublicAnswer fl
  status_answer health = record {
    status_code = 200;
    body =
        cluster_report health (is_some c.embedder)
          (Option.map (λ embedder. embedder.identity) c.embedder);
  }

  -- index_document
  abbrev pub index_in_cluster : (ℕ → Bool) → Str → Str → S → PublicAnswer fl × S
  index_in_cluster is_space document_id text s =
      respond explanation (placed_answer document_id)
        ((lift (make_document is_space document_id text) >>= λ document. route_put c document) s)

  -- delete_document
  abbrev pub remove_in_cluster : Str → S → PublicAnswer fl × S
  remove_in_cluster document_id s =
      respond explanation (answered_with 204 (λ _. empty_body)) (route_delete c document_id s)

  -- search
  abbrev pub search_in_cluster : Str → ℕ → S → PublicAnswer fl × S
  search_in_cluster query limit s =
      limited limit
        (λ s.
          respond explanation (answered_with 200 (lexical_page query))
            (distributed_search_for c query limit s))
        s

  -- semantic_search
  abbrev pub semantic_search_in_cluster : Str → ℕ → S → PublicAnswer fl × S
  semantic_search_in_cluster query limit s =
      limited limit
        (λ s.
          respond explanation (answered_with 200 (semantic_page query))
            (distributed_semantic_search c query limit s))
        s

  -- hybrid_search
  abbrev pub hybrid_search_in_cluster : Str → ℕ → Bool → S → PublicAnswer fl × S
  hybrid_search_in_cluster query limit explain s =
      limited limit
        (λ s.
          respond explanation (hybrid_answer query explain)
            (distributed_hybrid_search c query limit default_fusion s))
        s

  -- index_stats
  abbrev pub index_stats_in_cluster : S → PublicAnswer fl × S
  index_stats_in_cluster s =
      respond explanation (answered_with 200 figures_of_cluster) (cluster_index_stats c s)

  -- ready
  abbrev pub ready_in_cluster : S → PublicAnswer fl × S
  ready_in_cluster s = let (report, s') = readiness c s in (readiness_answer report.ready, s')

  -- cluster_status
  abbrev pub status_in_cluster : S → PublicAnswer fl × S
  status_in_cluster s = let (health, s') = cluster_status c s in (status_answer health, s')

module _ {S : Type 0} {fl : Float} {V : Type 0} (c : Coordinator S fl V) (is_space : ℕ → Bool) where
  unfoldable pub serve_cluster : PublicRequest → S → PublicAnswer fl × S
  serve_cluster (index_request document_id text) s = index_in_cluster c is_space document_id text s
  serve_cluster (removal_request document_id) s = remove_in_cluster c document_id s
  serve_cluster (lexical_request query limit) s = search_in_cluster c query (limit_or limit) s
  serve_cluster (semantic_request query limit) s =
      semantic_search_in_cluster c query (limit_or limit) s
  serve_cluster (hybrid_request query limit explain) s =
      hybrid_search_in_cluster c query (limit_or limit) (flag_or explain) s
  serve_cluster figures_request s = index_stats_in_cluster c s
  serve_cluster readiness_request s = ready_in_cluster c s
  serve_cluster liveness_request s = (liveness_answer, s)
  serve_cluster cluster_status_request s = status_in_cluster c s
