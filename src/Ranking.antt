-- ===== src/Ranking.antt =====
-- app/search/ranking.py: BM25 over the floats of `Float`, and the averages of app/search/index.py.
pub mod Scores
pub mod Parted
use pysearch.Base.{
  ℕ, ◌+◌, ◌-◌, Str, Dict, Bool, ◌||◌, Option, none, some, List, [], ◌∷◌, lookup, put, if◌then◌else◌,
  ◌==◌,
}
use pysearch.Float.{Float, is_zero}
use pysearch.Index.{
  InvertedIndex, CorpusStats, posting_map, document_length, document_count, unique_term_count,
  corpus_stats, stats_document_frequency,
}

module _ (fl : Float) where
  open fl use {F, of_nat, of_difference, one_half, add, sub, mul, div, log}

  -- BM25Params
  pub record Bm25Params : Type 0 where
    pub k1 : F
    pub b : F

  -- CorpusStats.average_document_length
  unfoldable pub average_document_length : CorpusStats → F
  average_document_length stats =
      if stats.document_count == 0
      then of_nat 0
      else div (of_nat stats.total_document_length) (of_nat stats.document_count)

  -- IndexStats, and InvertedIndex.stats
  pub record IndexStats : Type 0 where
    pub document_count : ℕ
    pub unique_term_count : ℕ
    pub average_document_length : F
    pub total_token_count : ℕ

  unfoldable pub index_stats : InvertedIndex → IndexStats
  index_stats index = record {
    document_count = document_count index;
    unique_term_count = unique_term_count index;
    average_document_length =
        if document_count index == 0
        then of_nat 0
        else div (of_nat index.total_length) (of_nat (document_count index));
    total_token_count = index.total_length;
  }

  unfoldable pub inverse_document_frequency : ℕ → ℕ → F
  inverse_document_frequency frequency count =
      let numerator = add (of_difference count frequency) one_half in
      let denominator = add (of_nat frequency) one_half in
      log (add (of_nat 1) (div numerator denominator))

  abbrev pub or_zero_score : Option F → F
  or_zero_score none = of_nat 0
  or_zero_score (some s) = s

  module _ (params : Bm25Params) where
    -- What one posting adds to the score of its document.
    unfoldable pub contribution : F → F → ℕ → ℕ → F
    contribution idf average_length frequency length =
        let length_ratio = div (of_nat length) average_length in
        let saturation =
          add (of_nat frequency)
            (mul params.k1 (add (sub (of_nat 1) params.b) (mul params.b length_ratio))) in
        div (mul idf (mul (of_nat frequency) (add params.k1 (of_nat 1)))) saturation

    -- The inner loop, over the items of a posting list.
    score_postings : InvertedIndex → F → F → Dict ℕ → Dict F → Dict F
    score_postings index idf average_length [] scores = scores
    score_postings index idf average_length ((document_id, frequency) ∷ postings) scores =
        score_postings index idf average_length postings (
          put document_id
            (add (or_zero_score (lookup document_id scores))
              (contribution idf average_length frequency (document_length index document_id)))
            scores)

    -- The outer loop, over the terms of the query. An empty posting list adds nothing.
    score_terms : InvertedIndex → CorpusStats → F → List Str → Dict F → Dict F
    unfolding score_postings
    score_terms index stats average_length [] scores = scores
    score_terms index stats average_length (term ∷ terms) scores =
        let idf =
          inverse_document_frequency (stats_document_frequency stats term) stats.document_count in
        score_terms index stats average_length terms
          (score_postings index idf average_length (posting_map index term) scores)

    -- The statistics given, or those of this index.
    abbrev pub stats_for : InvertedIndex → List Str → Option CorpusStats → CorpusStats
    stats_for index terms none = corpus_stats index terms
    stats_for index terms (some stats) = stats

    unfoldable pub score_query : InvertedIndex → List Str → Option CorpusStats → Dict F
    unfolding score_terms
    score_query index terms given =
        let stats = stats_for index terms given in
        let average_length = average_document_length stats in
        if stats.document_count == 0 || is_zero fl average_length
        then []
        else score_terms index stats average_length terms []
