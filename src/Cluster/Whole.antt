-- ===== src/Cluster/Whole.antt =====
-- The whole cluster against one engine over all its documents: both rounds of a search together
-- implement the search of app/search/engine.py.
use pysearch.Base.{
  contains-sorted, All-of_map, map-map, ℕ, Str, none, some, List, [], ◌∷◌, ◌++◌, ◌≡◌, refl, ap, sym,
  ◌∙◌, map, contains, All, concat_map, =ₛ_iff, arith, inl, inr, Bool-cases, ok,
}
use pysearch.Float.{Float, IsOrdered}
use pysearch.Analysis.{analyze}
use pysearch.Results.{top}
use pysearch.VectorIndex.{Vectors}
use pysearch.Index.{merge_corpus_stats, corpus_stats}
use pysearch.Engine.{Config, Engine}
use pysearch.Engine.Sync.{InSync}
use pysearch.Engine.Query.{search}
use pysearch.Engine.Searching.{hits_of, search-ok}
use pysearch.Engine.Parted.{HoldsAll, merged_stats}
use pysearch.Engine.Together.{top-HoldsAll}
use pysearch.Cluster.Coordinator.{Coordinator, distinct_terms, unique_terms, distributed_search_for}
use pysearch.Cluster.Distributed.{
  Serving, AllServe, cluster_stats, all_hits, All-map, distributed_search-exact,
}

contains-distinct_terms : (t : Str) (l : List Str) → contains t (distinct_terms l) ≡ contains t l
unfolding distinct_terms contains
contains-distinct_terms t [] = refl
contains-distinct_terms t (u ∷ l) = elim (Bool-cases (contains u l)) [
  | inl e ↦ rw e (ground (arith, contains-distinct_terms t l, =ₛ_iff u t))
  | inr e ↦ rw e (ground (arith, contains-distinct_terms t l))
]

-- The terms that statistics are asked for are the terms of the query.
contains-unique_terms : (t : Str) (l : List Str) → contains t (unique_terms l) ≡ contains t l
unfolding unique_terms
contains-unique_terms t l = contains-sorted t (distinct_terms l) ∙ contains-distinct_terms t l

concat_map-map {ℓ κ μ} :
    {A : Type ℓ} {B : Type κ} {C : Type μ} (g : B → List C) (f : A → B) (xs : List A)
    → concat_map g (map f xs) ≡ concat_map (λ a. g (f a)) xs
concat_map-map g f [] = refl
concat_map-map g f (x ∷ xs) = ap (λ l. g (f x) ++ l) (concat_map-map g f xs)

module _ (S : Type 0) {fl : Float} {vs : Vectors fl} (cfg : Config vs) where
  abbrev pub engines_of : List (Serving S cfg) → List (Engine vs)
  engines_of shards = map (λ p. p.1) shards

  top-all_hits :
      (o : IsOrdered fl) (limit : ℕ) (terms : List Str) (whole : Engine vs)
      (shards : List (Serving S cfg))
      → All (InSync cfg) (engines_of shards)
      → HoldsAll cfg whole (engines_of shards)
      → top fl limit (all_hits S cfg terms (cluster_stats S cfg (unique_terms terms) shards) shards)
        ≡ top fl limit (hits_of cfg whole terms none)
  top-all_hits o limit terms whole shards y h =
      let known = unique_terms terms in
      let stats : cluster_stats S cfg known shards ≡ merged_stats cfg known (engines_of shards) =
        ap merge_corpus_stats (sym (map-map (λ e. corpus_stats e.index known) (λ p. p.1) shards)) in
      ap (top fl limit) (
        ap (λ given. all_hits S cfg terms given shards) stats
        ∙ sym (
            concat_map-map
              (λ e. hits_of cfg e terms (some (merged_stats cfg known (engines_of shards))))
              (λ p. p.1) shards))
      ∙ top-HoldsAll cfg o limit whole (engines_of shards) terms known y h
          (λ term i. contains-unique_terms term terms ∙ i)

  -- Let every shard have a copy that passes requests on to an engine that is ready and in sync,
  -- behind copies that refuse; let the coordinator and the engines analyze alike, over ordered
  -- floats. Let one engine, ready and in sync, hold exactly the documents of the shards' engines,
  -- no two of which share a document. Then the coordinator's search changes nothing and returns
  -- what the one engine's search returns: the same results with the same scores in the same
  -- order, and the same total.
  pub distributed_search-HoldsAll :
      (o : IsOrdered fl) (c : Coordinator S fl vs.V) (query : Str) (limit : ℕ) (s : S)
      (shards : List (Serving S cfg)) (whole : Engine vs)
      → c.unicode ≡ cfg.unicode
      → c.topology ≡ map (λ p. p.0) shards
      → AllServe S cfg limit shards s
      → HoldsAll cfg whole (engines_of shards)
      → distributed_search_for c query limit s ≡ ((search cfg query limit none whole).0, s)
  distributed_search-HoldsAll o c query limit s shards whole same placed v h =
      let y : All (InSync cfg) (engines_of shards) =
        All-of_map (InSync cfg) (λ p. p.1) shards (All-map (λ p w. w.in_sync) shards v) in
      distributed_search-exact S cfg o c query limit s shards same v placed
      ∙ ap
          (λ u. (
            ok (
                top fl limit (
                  all_hits S cfg (analyze u query)
                    (cluster_stats S cfg (unique_terms (analyze u query)) shards) shards)),
            s,
          ))
          same
      ∙ ap (λ answer. (ok answer, s))
          (top-all_hits o limit (analyze cfg.unicode query) whole shards y h)
      ∙ ap (λ r. (r.0, s)) (sym (search-ok cfg whole query limit none h.serving h.in_sync))
