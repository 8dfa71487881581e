-- ===== src/Api.antt =====
-- The public endpoints, which a single node and a coordinator both have: app/api/documents.py,
-- search.py, semantic.py, hybrid.py, index.py and health.py, and here their requests and answers.
-- A request is data: its method, path, query string and body are one constructor.
pub mod Single
pub mod Clustered
pub mod Alike
pub mod Storing
use pysearch.Base.{
  ℕ, Str, Bool, true, false, ◌&&◌, Option, none, some, List, map, leb, if◌then◌else◌,
}
use pysearch.Float.{Float}
use pysearch.Results.{SearchResults}
use pysearch.Fusion.{FusionConfig, HybridHit, HybridResults}
use pysearch.Cluster.{SemanticIdentity}
use pysearch.Cluster.Status.{ClusterStats, ClusterHealth}
use pysearch.Http.{Response, refused}

-- A limit or a flag that the query string does not hold is `none`.
pub data PublicRequest : Type 0 where
  index_request : Str → Str → PublicRequest
  removal_request : Str → PublicRequest
  lexical_request semantic_request : Str → Option ℕ → PublicRequest
  hybrid_request : Str → Option ℕ → Option Bool → PublicRequest
  figures_request readiness_request liveness_request cluster_status_request : PublicRequest

-- The JSON bodies: IndexDocumentResponse of one node and of the coordinator, SearchResponse,
-- SemanticSearchResponse, HybridSearchResponse, IndexStatsResponse, ClusterStatsResponse,
-- ReadinessResponse, HealthResponse and ClusterStatusResponse. `explanation` is the body that
-- explains a refusal. The fingerprint of a semantic identity stands for the identity.
pub data PublicBody (fl : Float) : Type 0 where
  empty_body explanation alive : PublicBody fl
  document_indexed : Str → Bool → PublicBody fl
  document_placed : Str → Bool → ℕ → PublicBody fl
  lexical_page semantic_page : Str → SearchResults fl.F → PublicBody fl
  hybrid_page : Str → HybridResults fl.F → PublicBody fl
  node_figures : ℕ → ℕ → fl.F → PublicBody fl
  figures_of_cluster : ClusterStats fl → PublicBody fl
  readiness_report : Bool → PublicBody fl
  cluster_report : ClusterHealth → Bool → Option SemanticIdentity → PublicBody fl

abbrev pub PublicAnswer : Float → Type 0
PublicAnswer fl = Response (PublicBody fl)

-- DEFAULT_LIMIT
abbrev pub limit_or : Option ℕ → ℕ
limit_or none = 10
limit_or (some limit) = limit

abbrev pub flag_or : Option Bool → Bool
flag_or none = false
flag_or (some flag) = flag

-- FusionConfig()
abbrev pub default_fusion : FusionConfig
default_fusion = record { rrf_k = 60; candidate_multiplier = 5; max_candidate_depth = 100 }

-- A limit outside Query(ge=1, le=MAX_LIMIT) is refused before the handler runs.
abbrev pub limited {ℓ} :
    {fl : Float} {S : Type ℓ} → ℕ → (S → PublicAnswer fl × S) → S → PublicAnswer fl × S
limited limit handler s =
    if leb 1 limit && leb limit 100 then handler s else refused explanation 422 s

-- 201 for a new document, and 200 for one that was replaced
abbrev pub put_status : Bool → ℕ
put_status created = if created then 201 else 200

-- Either readiness route.
abbrev pub readiness_answer : {fl : Float} → Bool → PublicAnswer fl
readiness_answer up = record { status_code = if up then 200 else 503; body = readiness_report up }

abbrev pub liveness_answer : {fl : Float} → PublicAnswer fl
liveness_answer = record { status_code = 200; body = alive }

module _ {F : Type 0} where
  abbrev pub without_scores : HybridHit F → HybridHit F
  without_scores hit = record hit { lexical_score = none; semantic_score = none }

  -- to_response: the scores behind the ranks only on request
  abbrev pub explained : Bool → HybridResults F → HybridResults F
  explained true outcome = outcome
  explained false outcome = record outcome { results = map without_scores outcome.results }
