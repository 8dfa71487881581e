-- ===== src/Api/Alike.antt =====
-- A client that searches cannot tell a cluster from a single node.
use pysearch.Base.{
  ℕ, Str, Bool, ◌&&◌, Option, none, List, ◌≡◌, refl, map, leb, Result, ok, err, inl, inr,
  Bool-cases,
}
use pysearch.Float.{Float, IsOrdered}
use pysearch.Results.{SearchResults}
use pysearch.VectorIndex.{Vectors}
use pysearch.Engine.{Config, Engine}
use pysearch.Engine.Query.{search}
use pysearch.Engine.Parted.{HoldsAll}
use pysearch.Cluster.Coordinator.{Coordinator}
use pysearch.Cluster.Distributed.{Serving, AllServe}
use pysearch.Cluster.Whole.{engines_of, distributed_search-HoldsAll}
use pysearch.Http.{Response, respond, answered_with}
use pysearch.Api.{PublicAnswer, lexical_request, explanation, lexical_page, limit_or}
use pysearch.Api.Single.{serve_single}
use pysearch.Api.Clustered.{serve_cluster}

-- The answer depends on the result alone.
respond_elsewhere {ℓ κ} :
    {A P : Type 0} {S : Type ℓ} {T : Type κ} (refusal : P) (answer : A → Response P)
    (r : Result A × T) (s : S)
    → respond refusal answer (r.0, s) ≡ ((respond refusal answer r).0, s)
respond_elsewhere refusal answer (ok a, t) s = refl
respond_elsewhere refusal answer (err error, t) s = refl

module _ (S : Type 0) {fl : Float} {vs : Vectors fl} (cfg : Config vs) (is_space : ℕ → Bool) where
  -- Let the coordinator, its shards and one engine be as in a cluster that holds the documents of
  -- that engine: every shard has a copy that passes requests on to an engine that is ready and in
  -- sync, behind copies that refuse; no two of these engines share a document, and together they
  -- hold exactly the documents of the one engine, ready and in sync; all analyze alike, over
  -- ordered floats. Then the coordinator answers a request to search, whatever its query and its
  -- limit, with the status and the body that a single node over the one engine answers it with,
  -- and nothing changes.
  pub search-serve_single :
      (o : IsOrdered fl) (c : Coordinator S fl vs.V) (query : Str) (limit : Option ℕ) (s : S)
      (shards : List (Serving S cfg)) (whole : Engine vs)
      → c.unicode ≡ cfg.unicode
      → c.topology ≡ map (λ p. p.0) shards
      → AllServe S cfg (limit_or limit) shards s
      → HoldsAll cfg whole (engines_of S cfg shards)
      → serve_cluster c is_space (lexical_request query limit) s
        ≡ ((serve_single cfg is_space (lexical_request query limit) whole).0, s)
  unfolding serve_cluster serve_single
  search-serve_single o c query limit s shards whole same placed v h =
      elim (Bool-cases (leb 1 (limit_or limit) && leb (limit_or limit) 100)) [
        | inr outside ↦ rw outside
        | inl fits ↦
            let answer : SearchResults fl.F → PublicAnswer fl =
              answered_with 200 (lexical_page query) in
            let searched =
              distributed_search-HoldsAll S cfg o c query (limit_or limit) s shards whole same
                placed v h in
            rw (fits, searched)
              (respond_elsewhere explanation answer (search cfg query (limit_or limit) none whole)
                s)
      ]
