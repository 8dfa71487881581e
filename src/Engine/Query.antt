-- ===== src/Engine/Query.antt =====
-- app/search/engine.py: the queries of an engine.
use pysearch.Base.{
  ℕ, Str, Dict, Option, none, some, List, [], ◌∷◌, lookup, length, take, sorted, Result, ok, err,
  and_then, gets, ◌>>◌, key_error, embedding_error, semantic_disabled,
}
use pysearch.Float.{Float}
use pysearch.Document.{Document}
use pysearch.Analysis.{analyze}
use pysearch.Results.{SearchResult, SearchResults, item_le}
use pysearch.Index.{CorpusStats, corpus_stats}
use pysearch.Ranking.{IndexStats, index_stats, score_query}
use pysearch.VectorIndex.{Vectors, vector_count, search_vectors}
use pysearch.Engine.{Config, Act, require_operational}

abbrev pub no_results : {F : Type 0} → SearchResults F
no_results = record { total = 0; results = [] }

-- The results of a ranking, each with `self._documents[document_id].text`.
unfoldable pub with_texts :
    {F : Type 0} → Dict Document → List (Str × F) → Result (List (SearchResult F))
with_texts documents [] = ok []
with_texts documents ((document_id, score) ∷ ranked) =
    let rest = with_texts documents ranked in
    elim (lookup document_id documents) [
      | none ↦ err key_error
      | some document ↦ and_then rest (λ results.
          ok (record { document_id = document_id; score = score; text = document.text } ∷ results))
    ]

module _ {fl : Float} {vs : Vectors fl} (cfg : Config vs) where
  -- _search_locked: no terms, no results
  unfoldable pub search_locked : List Str → ℕ → Option CorpusStats → Act cfg (SearchResults fl.F)
  search_locked [] limit given e = (ok (record { total = 0; results = [] }), e)
  search_locked (term ∷ terms) limit given e =
      let scores = score_query fl cfg.params e.index (term ∷ terms) given in
      let ranked = sorted (item_le fl) scores in
      (
        and_then (with_texts e.documents (take limit ranked))
            (λ results. ok (record { total = length ranked; results = results })),
        e,
      )

  unfoldable pub search : Str → ℕ → Option CorpusStats → Act cfg (SearchResults fl.F)
  search query limit given =
      require_operational cfg >> search_locked (analyze cfg.unicode query) limit given

  -- corpus_stats and stats
  unfoldable pub engine_corpus_stats : List Str → Act cfg CorpusStats
  engine_corpus_stats terms = require_operational cfg >> gets (λ e. corpus_stats e.index terms)

  unfoldable pub engine_stats : Act cfg (IndexStats fl)
  engine_stats = require_operational cfg >> gets (λ e. index_stats fl e.index)

  -- embed_query
  unfoldable pub embed_query : Str → Result vs.V
  embed_query text = elim cfg.embedder [
    | none ↦ err semantic_disabled
    | some embedder ↦ elim (embedder.embed_query text) [
      | none ↦ err embedding_error
      | some vector ↦ ok vector
    ]
  ]

  unfoldable pub semantic_search_locked : vs.V → ℕ → Act cfg (SearchResults fl.F)
  semantic_search_locked vector limit e = (
    elim e.vectors [
      | none ↦ err semantic_disabled
      | some vectors ↦ and_then (search_vectors vs vector limit vectors) λ hits.
          and_then (with_texts e.documents hits)
            (λ results. ok (record { total = vector_count vs vectors; results = results }))
    ],
    e,
  )

  unfoldable pub semantic_search : vs.V → ℕ → Act cfg (SearchResults fl.F)
  semantic_search vector limit = require_operational cfg >> semantic_search_locked vector limit
