-- ===== src/Api/Single.antt =====
-- The application of a single node: app/api/documents.py, search.py, semantic.py, hybrid.py,
-- index.py and health.py over one engine.
use pysearch.Base.{ℕ, Str, Bool, none, lift, ◌>>=◌}
use pysearch.Float.{Float}
use pysearch.Document.{make_document}
use pysearch.Ranking.{IndexStats}
use pysearch.VectorIndex.{Vectors}
use pysearch.Fusion.{HybridResults}
use pysearch.Engine.{Config, Engine, is_ready, index_document, delete_document}
use pysearch.Engine.Query.{search, engine_stats, embed_query, semantic_search}
use pysearch.Engine.Hybrid.{hybrid_search}
use pysearch.Http.{respond, answered_with, refused}
use pysearch.Api.{
  PublicRequest, PublicAnswer, index_request, removal_request, lexical_request, semantic_request,
  hybrid_request, figures_request, readiness_request, liveness_request, cluster_status_request,
  empty_body, explanation, document_indexed, lexical_page, semantic_page, hybrid_page, node_figures,
  limit_or, flag_or, default_fusion, limited, put_status, readiness_answer, liveness_answer,
  explained,
}

module _ {fl : Float} where
  abbrev pub indexed_answer : Str → Bool → PublicAnswer fl
  indexed_answer document_id created = record {
    status_code = put_status created;
    body = document_indexed document_id created;
  }

  abbrev pub figures_answer : IndexStats fl → PublicAnswer fl
  figures_answer stats = record {
    status_code = 200;
    body = node_figures stats.document_count stats.unique_term_count stats.average_document_length;
  }

  abbrev pub hybrid_answer : Str → Bool → HybridResults fl.F → PublicAnswer fl
  hybrid_answer query explain outcome = record {
    status_code = 200;
    body = hybrid_page query (explained explain outcome);
  }

module _ {fl : Float} {vs : Vectors fl} (cfg : Config vs) where
  -- documents.index_document
  abbrev pub index_on_node : (ℕ → Bool) → Str → Str → Engine vs → PublicAnswer fl × Engine vs
  index_on_node is_space document_id text e = respond explanation (indexed_answer document_id) (
      (lift (make_document is_space document_id text) >>= λ document. index_document cfg document)
        e)

  -- documents.delete_document
  abbrev pub remove_on_node : Str → Engine vs → PublicAnswer fl × Engine vs
  remove_on_node document_id e =
      respond explanation (answered_with 204 (λ _. empty_body)) (delete_document cfg document_id e)

  -- search.search
  abbrev pub search_on_node : Str → ℕ → Engine vs → PublicAnswer fl × Engine vs
  search_on_node query limit e =
      limited limit
        (λ e.
          respond explanation (answered_with 200 (lexical_page query))
            (search cfg query limit none e))
        e

  -- semantic.semantic_search
  abbrev pub semantic_search_on_node : Str → ℕ → Engine vs → PublicAnswer fl × Engine vs
  semantic_search_on_node query limit e =
      limited limit
        (λ e.
          respond explanation (answered_with 200 (semantic_page query))
            ((lift (embed_query cfg query) >>= λ vector. semantic_search cfg vector limit) e))
        e

  -- hybrid.hybrid_search
  abbrev pub hybrid_search_on_node : Str → ℕ → Bool → Engine vs → PublicAnswer fl × Engine vs
  hybrid_search_on_node query limit explain e =
      limited limit
        (λ e.
          respond explanation (hybrid_answer query explain)
            (hybrid_search cfg query limit default_fusion e))
        e

  -- index.index_stats
  abbrev pub index_stats_on_node : Engine vs → PublicAnswer fl × Engine vs
  index_stats_on_node e = respond explanation figures_answer (engine_stats cfg e)

module _ {fl : Float} {vs : Vectors fl} (cfg : Config vs) (is_space : ℕ → Bool) where
  unfoldable pub serve_single : PublicRequest → Engine vs → PublicAnswer fl × Engine vs
  serve_single (index_request document_id text) e = index_on_node cfg is_space document_id text e
  serve_single (removal_request document_id) e = remove_on_node cfg document_id e
  serve_single (lexical_request query limit) e = search_on_node cfg query (limit_or limit) e
  serve_single (semantic_request query limit) e =
      semantic_search_on_node cfg query (limit_or limit) e
  serve_single (hybrid_request query limit explain) e =
      hybrid_search_on_node cfg query (limit_or limit) (flag_or explain) e
  serve_single figures_request e = index_stats_on_node cfg e
  serve_single readiness_request e = (readiness_answer (is_ready e.state), e)
  serve_single liveness_request e = (liveness_answer, e)
  -- a path that the application does not have
  serve_single cluster_status_request e = refused explanation 404 e
