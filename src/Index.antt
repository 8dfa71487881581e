-- ===== src/Index.antt =====
-- app/search/index.py: the inverted index with its running statistics. The averages, which are
-- floats, are in `Ranking`; the rest of the statistics is here.
pub mod Corpus
pub mod Counting
pub mod Columns
mod Adding
mod Removing
pub mod Updates
pub mod Validation
pub mod Shards
pub mod Parted
use pysearch.Base.{
  ℕ, ◌+◌, ◌-◌, Str, Dict, Bool, true, false, Option, none, some, List, [], ◌∷◌, not, lookup, member,
  put, remove, keys, values, contains, length, sum, if◌then◌else◌, ltb, ◌==◌, Result, ok, err, Exec,
  pure, modify, ◌>>◌, key_error,
}

-- CorpusStats
pub record CorpusStats : Type 0 where
  pub document_count : ℕ
  pub total_document_length : ℕ
  pub document_frequencies : Dict ℕ

abbrev pub or_zero : Option ℕ → ℕ
or_zero none = 0
or_zero (some n) = n

-- CorpusStats.document_frequency
abbrev pub stats_document_frequency : CorpusStats → Str → ℕ
stats_document_frequency stats term = or_zero (lookup term stats.document_frequencies)

-- The inner loop of `merge_corpus_stats` over one part's frequencies.
add_frequencies : Dict ℕ → Dict ℕ → Dict ℕ
add_frequencies [] merged = merged
add_frequencies ((term, frequency) ∷ items) merged =
    add_frequencies items (put term (or_zero (lookup term merged) + frequency) merged)

-- One turn of the loop over the parts.
add_part : CorpusStats → CorpusStats → CorpusStats
add_part merged part = record {
  document_count = merged.document_count + part.document_count;
  total_document_length = merged.total_document_length + part.total_document_length;
  document_frequencies = add_frequencies part.document_frequencies merged.document_frequencies;
}

merge_into : CorpusStats → List CorpusStats → CorpusStats
unfolding add_frequencies add_part
merge_into merged [] = merged
merge_into merged (part ∷ parts) = merge_into (add_part merged part) parts

abbrev no_stats : CorpusStats
no_stats = record { document_count = 0; total_document_length = 0; document_frequencies = [] }

unfoldable pub merge_corpus_stats : List CorpusStats → CorpusStats
unfolding merge_into
merge_corpus_stats parts = merge_into no_stats parts

-- The state of `InvertedIndex`. A frozenset of terms is a list without repetitions.
pub record InvertedIndex : Type 0 where
  pub postings : Dict (Dict ℕ)
  pub document_terms : Dict (List Str)
  pub document_lengths : Dict ℕ
  pub total_length : ℕ

-- InvertedIndex()
abbrev pub empty_index : InvertedIndex
empty_index = record { postings = []; document_terms = []; document_lengths = []; total_length = 0 }

abbrev pub or_empty {ℓ} : {V : Type ℓ} → Option (Dict V) → Dict V
or_empty none = []
or_empty (some m) = m

-- collections.Counter(tokens): the terms in the order of their first occurrence.
count_into : Dict ℕ → List Str → Dict ℕ
count_into counts [] = counts
count_into counts (token ∷ tokens) =
    count_into (put token (or_zero (lookup token counts) + 1) counts) tokens

unfoldable pub counter : List Str → Dict ℕ
unfolding count_into
counter tokens = count_into [] tokens

-- The lookups and the integer statistics.
module _ (index : InvertedIndex) where
  abbrev pub document_count : ℕ
  document_count = length index.document_lengths

  abbrev pub unique_term_count : ℕ
  unique_term_count = length index.postings

  abbrev pub posting_map : Str → Dict ℕ
  posting_map term = or_empty (lookup term index.postings)

  abbrev pub document_frequency : Str → ℕ
  document_frequency term = length (posting_map term)

  abbrev pub term_frequency : Str → Str → ℕ
  term_frequency term document_id = or_zero (lookup document_id (posting_map term))

  abbrev pub document_length : Str → ℕ
  document_length document_id = or_zero (lookup document_id index.document_lengths)

  abbrev pub index_contains : Str → Bool
  index_contains document_id = member document_id index.document_lengths

  abbrev pub document_ids : List Str
  document_ids = keys index.document_lengths

-- {term: self.document_frequency(term) for term in terms}
frequencies_of : InvertedIndex → List Str → Dict ℕ → Dict ℕ
frequencies_of index [] found = found
frequencies_of index (term ∷ terms) found =
    frequencies_of index terms (put term (document_frequency index term) found)

unfoldable pub corpus_stats : InvertedIndex → List Str → CorpusStats
unfolding frequencies_of
corpus_stats index terms = record {
  document_count = document_count index;
  total_document_length = index.total_length;
  document_frequencies = frequencies_of index terms [];
}

-- The loop of `add_document`: `postings.setdefault(term, {})[document_id] = term_frequency`.
add_postings : Str → Dict ℕ → Dict (Dict ℕ) → Dict (Dict ℕ)
add_postings document_id [] postings = postings
add_postings document_id ((term, frequency) ∷ items) postings =
    add_postings document_id items
      (put term (put document_id frequency (or_empty (lookup term postings))) postings)

-- What is left of a posting list: `if not postings: del self._postings[term]`.
store_rest : Str → Dict ℕ → Dict (Dict ℕ) → Dict (Dict ℕ)
store_rest term [] postings = remove term postings
store_rest term (entry ∷ rest) postings = put term (entry ∷ rest) postings

-- One turn of the loop of `remove_document`. Both `self._postings[term]` and the `del` raise
-- KeyError on a missing key, and a posting list that is empty afterwards is deleted.
drop_posting : Str → Str → Exec (Dict (Dict ℕ)) (Unit {0})
drop_posting document_id term postings = elim (lookup term postings) [
  | none ↦ (err key_error, postings)
  | some found ↦
      if member document_id found
      then (ok tt, store_rest term (remove document_id found) postings)
      else (err key_error, postings)
]

drop_postings : Str → List Str → Exec (Dict (Dict ℕ)) (Unit {0})
unfolding drop_posting store_rest
drop_postings document_id [] = pure tt
drop_postings document_id (term ∷ terms) =
    drop_posting document_id term >> drop_postings document_id terms

-- `del self._postings…` for the popped terms, then the pop of the length. An exception leaves
-- what was popped and deleted before it.
finish_remove :
    Str → ℕ → InvertedIndex → Result (Unit {0}) × Dict (Dict ℕ) → Result (Unit {0}) × InvertedIndex
finish_remove document_id removed index (err e, postings) = (
  err e,
  record index { postings = postings; document_terms = remove document_id index.document_terms },
)
finish_remove document_id removed index (ok _, postings) = (
  ok tt,
  record {
    postings = postings;
    document_terms = remove document_id index.document_terms;
    document_lengths = remove document_id index.document_lengths;
    total_length = index.total_length - removed;
  },
)

-- The subtraction is on ℕ; `Represents` (in `Index/Corpus`) keeps every length at or below the total.
unfoldable pub remove_document : Str → Exec InvertedIndex (Unit {0})
unfolding drop_postings finish_remove
remove_document document_id index = elim (lookup document_id index.document_lengths) [
  | none ↦ (err key_error, index)
  | some removed ↦ elim (lookup document_id index.document_terms) [
    | none ↦ (err key_error, index)
    | some terms ↦
        finish_remove document_id removed index (drop_postings document_id terms index.postings)
  ]
]

-- The second half of `add_document`, for an identifier that is not in the index.
pub insert_document : Str → List Str → InvertedIndex → InvertedIndex
unfolding counter add_postings
insert_document document_id tokens index =
    let frequencies = counter tokens in
    record {
      postings = add_postings document_id frequencies index.postings;
      document_terms = put document_id (keys frequencies) index.document_terms;
      document_lengths = put document_id (length tokens) index.document_lengths;
      total_length = index.total_length + length tokens;
    }

unfoldable pub add_document : Str → List Str → Exec InvertedIndex (Unit {0})
unfolding remove_document insert_document
add_document document_id tokens index =
    if index_contains index document_id
    then (remove_document document_id >> modify (insert_document document_id tokens)) index
    else (ok tt, insert_document document_id tokens index)
