-- ===== src/Cluster/Distributed.antt =====
-- The two rounds of a distributed search against the engines behind the copies that answer.
use pysearch.Base.{
  map-map, ℕ, Str, true, some, List, [], ◌∷◌, ◌++◌, ◌≡◌, refl, ap, sym, ◌∙◌, map, length, All,
  concat_map, sorted, ◌==◌, arith, inl, inr, Bool-cases, Error, is_cluster_error, ok, err, Exec,
  pure, ◌>>=◌, take_nil,
}
use pysearch.Float.{Float, IsOrdered}
use pysearch.Analysis.{analyze}
use pysearch.Results.{SearchResult, top}
use pysearch.Index.{CorpusStats, corpus_stats, merge_corpus_stats}
use pysearch.Ranking.{score_query}
use pysearch.Ranking.Scores.{score_query_empty, score_query_nothing}
use pysearch.VectorIndex.{Vectors}
use pysearch.Engine.{Config, Engine, is_ready}
use pysearch.Engine.Sync.{InSync}
use pysearch.Engine.Query.{search, engine_corpus_stats}
use pysearch.Engine.Searching.{hits_of, hit_of, search-ok}
use pysearch.Cluster.{ShardClient, ShardCopies, serving_order}
use pysearch.Cluster.Coordinator.{
  Coordinator, run_all, stats_from_any_copy, from_any_copy, select_and_collect, fan_out_search,
  search_selected, search_rounds, distributed_search_for, unique_terms,
}
use pysearch.Cluster.Gathering.{gather-ok}
use pysearch.Cluster.Failover.{AllRefuse, from_any_copy-first}
use pysearch.Cluster.Merging.{merge-top}

empty_of {ℓ} : {A : Type ℓ} (xs : List A) → (length xs == 0) ≡ true → xs ≡ []
empty_of [] h = refl
empty_of (x ∷ xs) h = absurd (ground arith)

-- Requests that each answer and change nothing.
pub run_all_each {ℓ} :
    {B : Type ℓ} {S A : Type 0} (f : B → Exec S A) (g : B → A) (s : S) (xs : List B)
    → All (λ x. f x s ≡ (ok (g x), s)) xs
    → run_all (map f xs) s ≡ (map ok (map g xs), s)
unfolding run_all
run_all_each f g s [] h = refl
run_all_each f g s (x ∷ xs) h = rw (h.0, run_all_each f g s xs h.1)

pub All-map {ℓ κ μ} :
    {A : Type ℓ} {P : A → Type κ} {Q : A → Type μ} (f : (a : A) → P a → Q a) (xs : List A)
    → All P xs
    → All Q xs
All-map f [] h = tt
All-map f (x ∷ xs) h = (f x h.0, All-map f xs h.1)

module _ (S : Type 0) {fl : Float} {vs : Vectors fl} (cfg : Config vs) where
  -- A copy that passes the requests of a search for `limit` results on to an engine, and its
  -- answers back.
  pub record Relays (client : ShardClient S fl vs.V) (e : Engine vs) (limit : ℕ) (s : S)
      : Type 0 where
    pub relays_stats :
        (terms : List Str) → client.corpus_stats terms s ≡ ((engine_corpus_stats cfg terms e).0, s)
    pub relays_search :
        (query : Str) (stats : CorpusStats)
        → client.search query limit stats s ≡ ((search cfg query limit (some stats) e).0, s)

  -- A shard, the engine that serves it, and the copy in which that engine runs.
  abbrev pub Serving : Type 0
  Serving = ShardCopies S fl vs.V × Engine vs × ShardClient S fl vs.V

  -- The copies before the serving one refuse, and the engine of the serving one is ready and in
  -- sync.
  pub record Serves (limit : ℕ) (p : Serving) (s : S) : Type 0 where
    pub before : List (ShardClient S fl vs.V)
    pub after : List (ShardClient S fl vs.V)
    pub order : serving_order p.0 ≡ before ++ p.2 ∷ after
    pub refuse :
        (terms : List Str)
        → All
            (λ c.
              (error : Error) × (c.corpus_stats terms s ≡ (err error, s))
              × (is_cluster_error error ≡ true))
            before
    pub relays : Relays p.2 p.1 limit s
    pub serving : is_ready p.1.state ≡ true
    pub in_sync : InSync cfg p.1

  -- The statistics of all the shards together.
  abbrev pub cluster_stats : List Str → List Serving → CorpusStats
  cluster_stats terms shards = merge_corpus_stats (map (λ p. corpus_stats p.1.index terms) shards)

  -- What all the shards score, under given statistics.
  abbrev pub all_hits : List Str → CorpusStats → List Serving → List (SearchResult fl.F)
  all_hits terms stats shards = concat_map (λ p. hits_of cfg p.1 terms (some stats)) shards

  refusing :
      (terms : List Str) (s : S) (before : List (ShardClient S fl vs.V))
      → All
          (λ c.
            (error : Error) × (c.corpus_stats terms s ≡ (err error, s))
            × (is_cluster_error error ≡ true))
          before
      → AllRefuse {A = ShardClient S fl vs.V × CorpusStats}
          (λ client. client.corpus_stats terms >>= λ stats. pure (client, stats))
          before
          s
          s
  refusing terms s [] h = refl
  refusing terms s (c ∷ before) ((error, refused, known), h) =
      rw refused ((error, refl, known), refusing terms s before h)

  first_round :
      (terms : List Str) (limit : ℕ) (s : S) (p : Serving)
      → Serves limit p s
      → stats_from_any_copy terms p.0 s ≡ (ok (p.2, corpus_stats p.1.index terms), s)
  unfolding stats_from_any_copy engine_corpus_stats
  first_round terms limit s p v =
      let ask : ShardClient S fl vs.V → Exec S (ShardClient S fl vs.V × CorpusStats) =
        λ client. client.corpus_stats terms >>= λ stats. pure (client, stats) in
      let asked : ask p.2 s ≡ (ok (p.2, corpus_stats p.1.index terms), s) =
        rw (v.relays.relays_stats terms, v.serving) in
      let (all_fail, next) =
        from_any_copy-first ask p.0.shard_id v.before s s
          (refusing terms s v.before (v.refuse terms)) in
      ap (λ clients. from_any_copy ask p.0.shard_id clients s) v.order
      ∙ (next p.2 v.after s).0 (p.2, corpus_stats p.1.index terms) asked

  second_round :
      (query : Str) (limit : ℕ) (stats : CorpusStats) (s : S) (p : Serving)
      → Serves limit p s
      → p.2.search query limit stats s
        ≡ (ok (top fl limit (hits_of cfg p.1 (analyze cfg.unicode query) (some stats))), s)
  second_round query limit stats s p v =
      v.relays.relays_search query stats
      ∙ rw (search-ok cfg p.1 query limit (some stats) v.serving v.in_sync)

  abbrev pub AllServe : ℕ → List Serving → S → Type 0
  AllServe limit shards s = All (λ p. Serves limit p s) shards

  collect_selection :
      (c : Coordinator S fl vs.V) (terms : List Str) (limit : ℕ) (shards : List Serving) (s : S)
      → c.topology ≡ map (λ p. p.0) shards
      → AllServe limit shards s
      → select_and_collect c terms s
        ≡ (ok (map (λ p. (p.2, corpus_stats p.1.index terms)) shards), s)
  unfolding select_and_collect
  collect_selection c terms limit shards s placed v =
      rw (placed, map-map)
        (gather-ok (map (λ p. stats_from_any_copy terms p.0) shards) s s _ (
          run_all_each (λ p. stats_from_any_copy terms p.0) _ s shards
            (All-map (first_round terms limit s) shards v)))

  nothing_scored :
      (terms : List Str) (stats : CorpusStats) (shards : List Serving)
      → ((p : Serving) → hits_of cfg p.1 terms (some stats) ≡ [])
      → all_hits terms stats shards ≡ []
  nothing_scored terms stats [] h = refl
  nothing_scored terms stats (p ∷ shards) h = rw (h p, nothing_scored terms stats shards h)

  top_nothing : (limit : ℕ) → top fl limit [] ≡ record { total = 0; results = [] }
  unfolding sorted
  top_nothing limit = rw take_nil

  module _ (o : IsOrdered fl) (c : Coordinator S fl vs.V) (query : Str) (limit : ℕ) (s : S)
      (shards : List Serving) (same : c.unicode ≡ cfg.unicode) (v : AllServe limit shards s) where
    abbrev terms : List Str
    terms = analyze c.unicode query

    answer_each :
        (stats : CorpusStats)
        → fan_out_search c query limit stats (map (λ p. p.2) shards) s
          ≡ (ok (map (λ p. top fl limit (hits_of cfg p.1 terms (some stats))) shards), s)
    unfolding fan_out_search
    answer_each stats = rw map-map (
        gather-ok (map (λ p. p.2.search query limit stats) shards) s s _ (
          run_all_each (λ p. p.2.search query limit stats) _ s shards
            (All-map
              (λ p w.
                second_round query limit stats s p w
                ∙ ap (λ u. (ok (top fl limit (hits_of cfg p.1 (analyze u query) (some stats))), s))
                    (sym same))
              shards v)))

    answer_selected :
        (stats : CorpusStats) (selection : List (ShardClient S fl vs.V × CorpusStats))
        → merge_corpus_stats (map (λ p. p.1) selection) ≡ stats
        → map (λ p. p.0) selection ≡ map (λ p. p.2) shards
        → search_selected c query limit selection s
          ≡ (ok (top fl limit (all_hits terms stats shards)), s)
    unfolding search_selected
    answer_selected stats selection merged pinned = elim (Bool-cases (stats.document_count == 0)) [
      | inl empty ↦
          let unscored = nothing_scored terms stats shards (λ p.
            ap (map (hit_of p.1.documents))
              (score_query_nothing fl cfg.params p.1.index terms stats empty)) in
          rw (merged, empty, unscored) (ap (λ a. (ok a, s)) (sym (top_nothing limit)))
      | inr full ↦
          rw (merged, full, pinned, answer_each stats)
            (ap (λ a. (ok a, s))
              (merge-top o limit (λ p. hits_of cfg p.1 terms (some stats)) shards))
    ]

    -- Let every shard have a copy that passes requests on to an engine that is ready and in sync,
    -- behind copies that refuse, and let the coordinator and the engines analyze alike, over
    -- ordered floats. Then a search returns and changes nothing. Its answer is the best `limit`
    -- of what all the engines score, ranked together, under the merged statistics of all the
    -- shards; its total counts all of it.
    pub distributed_search-exact :
        c.topology ≡ map (λ p. p.0) shards
        → distributed_search_for c query limit s ≡ (
          ok (top fl limit (all_hits terms (cluster_stats (unique_terms terms) shards) shards)),
          s,
        )
    unfolding distributed_search_for search_rounds
    distributed_search-exact placed =
        let stats = cluster_stats (unique_terms terms) shards in
        elim (Bool-cases (length terms == 0)) [
          | inl e ↦
              let unscored = nothing_scored terms stats shards (λ p.
                ap (map (hit_of p.1.documents)) (
                  ap (λ l. score_query fl cfg.params p.1.index l (some stats)) (empty_of terms e)
                  ∙ score_query_empty fl cfg.params p.1.index (some stats))) in
              rw (e, unscored) (ap (λ a. (ok a, s)) (sym (top_nothing limit)))
          | inr e ↦
              rw (e, collect_selection c (unique_terms terms) limit shards s placed v)
                (answer_selected stats _
                  (ap merge_corpus_stats (
                    map-map (λ p. p.1) (λ p. (p.2, corpus_stats p.1.index (unique_terms terms)))
                      shards))
                  (map-map (λ p. p.0) (λ p. (p.2, corpus_stats p.1.index (unique_terms terms)))
                    shards))
        ]
