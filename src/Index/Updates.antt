-- ===== src/Index/Updates.antt =====
-- `add_document` and `remove_document` keep the index of a corpus, and what its statistics then are.
use pysearch.Base.{
  ℕ, Str, true, false, Option, none, some, List, [], ◌≡◌, refl, ◌∙◌, lookup, member, remove, values,
  length, sum, =ₛ_refl, inl, inr, Bool-cases, Option-cases, lookup_absent, lookup_present,
  remove_absent, member-remove, Result, ok, err, key_error,
}
use pysearch.Index.{
  InvertedIndex, empty_index, remove_document, add_document, index_contains, document_count,
  document_frequency, document_length, term_frequency, posting_map,
}
use pysearch.Index.Corpus.{Corpus, count, map_values, column, Represents, with_document}
use pysearch.Index.Counting.{or_zero-positive}
use pysearch.Index.Columns.{
  member-map_values, lookup-map_values, length-map_values, or_empty-nonempty, lookup-column,
  column_absent,
}
use pysearch.Index.Adding.{insert_document-Represents}
use pysearch.Index.Removing.{remove_indexed}

-- The outcomes of a method that returns without a value and leaves an index for a corpus.
abbrev pub Leaves : Result (Unit {0}) × InvertedIndex → Corpus → Type 0
Leaves result c = (result.0 ≡ ok tt) × Represents result.1 c

module _ (index : InvertedIndex) (c : Corpus) (document_id : Str) (r : Represents index c) where
  pub index_contains-eq-member : index_contains index document_id ≡ member document_id c
  index_contains-eq-member = rw r.lengths (member-map_values length document_id c)

  -- On the index of a corpus, removing a document that is in it raises nothing and leaves the
  -- index of the corpus without it. Removing any other raises KeyError and changes nothing.
  pub remove_document-Represents :
      (member document_id c ≡ true
        → Leaves (remove_document document_id index) (remove document_id c))
      × (member document_id c ≡ false → remove_document document_id index ≡ (err key_error, index))
  remove_document-Represents = (present, absent)
    where
      present :
          member document_id c ≡ true
          → Leaves (remove_document document_id index) (remove document_id c)
      present m =
          let (tokens, h) = lookup_present document_id c m in
          let (next, e, done) = remove_indexed r document_id tokens h in rw e (refl, done)

      absent :
          member document_id c ≡ false → remove_document document_id index ≡ (err key_error, index)
      absent m =
          unfold remove_document in
          rw (
            lookup_absent document_id index.document_lengths (index_contains-eq-member ∙ m),
            remove_document,
          )

  -- On the index of a corpus, adding a document, new or known, raises nothing and leaves the
  -- index of the corpus in which the document has these tokens and stands last.
  pub add_document-Represents :
      (tokens : List Str)
      → Leaves (add_document document_id tokens index) (with_document document_id tokens c)
  unfolding add_document
  add_document-Represents tokens = elim (Bool-cases (member document_id c)) [
    | inl m ↦
        let (words, h) = lookup_present document_id c m in
        let (next, e, done) = remove_indexed r document_id words h in
        rw (index_contains-eq-member, m)
          (rw e (
            refl,
            insert_document-Represents document_id next (remove document_id c) tokens done
                (member-remove document_id document_id c ∙ rw =ₛ_refl),
          ))
    | inr m ↦
        rw (index_contains-eq-member, m, remove_absent document_id c m)
          (refl, insert_document-Represents document_id index c tokens r m)
  ]

-- The empty index stands for the empty corpus.
pub empty_index-Represents : Represents empty_index []
unfolding column lookup
empty_index-Represents = record {
  postings = λ term. refl;
  terms = refl;
  lengths = refl;
  total = refl;
  documents = tt;
  vocabulary = tt;
}

-- How often a document of the corpus has a term.
abbrev pub occurrences : Str → Option (List Str) → ℕ
occurrences term none = 0
occurrences term (some tokens) = count term tokens

abbrev pub length_of : Option (List Str) → ℕ
length_of none = 0
length_of (some tokens) = length tokens

module _ (index : InvertedIndex) (c : Corpus) (r : Represents index c) where
  pub posting_map-eq-column : (term : Str) → posting_map index term ≡ column term c
  posting_map-eq-column term = rw r.postings (or_empty-nonempty (column term c))

  pub document_length-eq :
      (document_id : Str) → document_length index document_id ≡ length_of (lookup document_id c)
  document_length-eq document_id = elim (Option-cases (lookup document_id c)) [
    | inl e ↦ rw (r.lengths, lookup-map_values, e)
    | inr (tokens, e) ↦ rw (r.lengths, lookup-map_values, e)
  ]

  term_frequency-eq :
      (term document_id : Str)
      → term_frequency index term document_id ≡ occurrences term (lookup document_id c)
  term_frequency-eq term document_id = elim (Bool-cases (member document_id c)) [
    | inl m ↦
        let (tokens, h) = lookup_present document_id c m in
        rw (posting_map-eq-column, h, lookup-column term document_id c tokens r.documents h)
          (or_zero-positive (count term tokens))
    | inr m ↦ rw (
      posting_map-eq-column,
      lookup_absent document_id c m,
      lookup_absent document_id (column term c) (column_absent term document_id c m),
    )
  ]

  -- On the index of a corpus, N is the number of documents, df the number of documents that
  -- contain the term, tf how often a document has it, dl the document's length, and the total the
  -- sum of the lengths.
  pub statistics_exact :
      (term document_id : Str)
      → (document_count index ≡ length c)
        × (document_frequency index term ≡ length (column term c))
        × (term_frequency index term document_id ≡ occurrences term (lookup document_id c))
        × (document_length index document_id ≡ length_of (lookup document_id c))
        × (index.total_length ≡ sum (values (map_values length c)))
  statistics_exact term document_id = (
    rw r.lengths (length-map_values length c),
    rw posting_map-eq-column,
    term_frequency-eq term document_id,
    document_length-eq document_id,
    r.total,
  )
