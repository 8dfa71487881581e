-- ===== src/Examples/Indexes.antt =====
-- The index, run.
use pysearch.Base.{
  Str, true, false, ◌≡◌, refl, List, [], ◌∷◌, none, ok, err, codes, lookup, member, put, remove,
  ◌=ₛ◌, key_error, length, sum, values, if◌then◌else◌,
}
use pysearch.Float.{naturals}
use pysearch.Index.{
  InvertedIndex, CorpusStats, empty_index, add_document, remove_document, corpus_stats,
  merge_corpus_stats, stats_document_frequency, document_count, document_frequency, term_frequency,
  document_length,
}
use pysearch.Index.Corpus.{Corpus, Represents, with_document, column, map_values}
use pysearch.Index.Updates.{
  Leaves, remove_document-Represents, add_document-Represents, empty_index-Represents,
  statistics_exact, occurrences, length_of,
}
use pysearch.Index.Validation.{validate, validate-ok}
use pysearch.Index.Shards.{Shard, collected, merge_corpus_stats-exact}
use pysearch.Ranking.{score_query, stats_for}
use pysearch.Ranking.Scores.{score_query-bm25, score_in, nothing_to_score}
use pysearch.Examples.{first_id, second_id, params}

abbrev red_fox : List Str
red_fox = codes "red" ∷ codes "fox" ∷ []

abbrev old_fox : List Str
old_fox = codes "old" ∷ codes "fox" ∷ []

abbrev one_document : InvertedIndex
one_document = (add_document first_id red_fox empty_index).1

abbrev one_corpus : Corpus
one_corpus = with_document first_id red_fox []

one_document-Represents : Represents one_document one_corpus
one_document-Represents =
    (add_document-Represents empty_index [] first_id empty_index-Represents red_fox).1

abbrev two_documents : InvertedIndex
two_documents = (add_document second_id old_fox one_document).1

abbrev two_corpus : Corpus
two_corpus = with_document second_id old_fox one_corpus

two_documents-Represents : Represents two_documents two_corpus
two_documents-Represents =
    (add_document-Represents one_document one_corpus second_id one_document-Represents old_fox).1

abbrev second_document : InvertedIndex
second_document = (add_document second_id old_fox empty_index).1

abbrev second_corpus : Corpus
second_corpus = with_document second_id old_fox []

second_document-Represents : Represents second_document second_corpus
second_document-Represents =
    (add_document-Represents empty_index [] second_id empty_index-Represents old_fox).1

document_frequency_run : document_frequency two_documents (codes "fox") ≡ 2
unfolding add_document lookup put member ◌=ₛ◌
document_frequency_run = refl

-- A document that is known is replaced.
add_document-Represents_example :
    Leaves (add_document first_id old_fox two_documents) (with_document first_id old_fox two_corpus)
add_document-Represents_example =
    add_document-Represents two_documents two_corpus first_id two_documents-Represents old_fox

remove_document-Represents_example :
    (member first_id two_corpus ≡ true
      → Leaves (remove_document first_id two_documents) (remove first_id two_corpus))
    × (member first_id two_corpus ≡ false
        → remove_document first_id two_documents ≡ (err key_error, two_documents))
remove_document-Represents_example =
    remove_document-Represents two_documents two_corpus first_id two_documents-Represents

statistics_exact_example :
    (document_count two_documents ≡ length two_corpus)
    × (document_frequency two_documents (codes "fox") ≡ length (column (codes "fox") two_corpus))
    × (term_frequency two_documents (codes "fox") first_id
        ≡ occurrences (codes "fox") (lookup first_id two_corpus))
    × (document_length two_documents first_id ≡ length_of (lookup first_id two_corpus))
    × (two_documents.total_length ≡ sum (values (map_values length two_corpus)))
statistics_exact_example =
    statistics_exact two_documents two_corpus two_documents-Represents (codes "fox") first_id

validate-ok_example : validate two_documents ≡ ok tt
validate-ok_example = validate-ok two_documents two_corpus two_documents-Represents

abbrev two_shards : List Shard
two_shards = (one_document, one_corpus) ∷ (second_document, second_corpus) ∷ []

merge_corpus_stats-exact_example :
    ((merge_corpus_stats (collected red_fox two_shards)).document_count
      ≡ (corpus_stats two_documents red_fox).document_count)
    × ((merge_corpus_stats (collected red_fox two_shards)).total_document_length
        ≡ (corpus_stats two_documents red_fox).total_document_length)
    × (stats_document_frequency (merge_corpus_stats (collected red_fox two_shards)) (codes "fox")
        ≡ stats_document_frequency (corpus_stats two_documents red_fox) (codes "fox"))
unfolding remove ◌=ₛ◌
merge_corpus_stats-exact_example =
    merge_corpus_stats-exact red_fox two_shards two_documents (codes "fox")
      (one_document-Represents, (second_document-Represents, tt)) two_documents-Represents

abbrev two_parts : List CorpusStats
two_parts =
    record {
      document_count = 2;
      total_document_length = 5;
      document_frequencies = (codes "fox", 1) ∷ (codes "red", 2) ∷ [];
    }
    ∷ record {
      document_count = 1;
      total_document_length = 3;
      document_frequencies = (codes "fox", 1) ∷ [];
    }
    ∷ []

score_query-bm25_example :
    lookup first_id (score_query naturals params two_documents red_fox none) ≡ (
      if nothing_to_score naturals params (stats_for naturals params two_documents red_fox none)
      then none
      else score_in naturals params
          (stats_for naturals params two_documents red_fox none)
          red_fox
          (lookup first_id two_corpus))
score_query-bm25_example =
    score_query-bm25 naturals params two_documents two_corpus red_fox none first_id
      two_documents-Represents
