-- ===== src/Index/Shards.antt =====
-- `corpus_stats` of the shards and `merge_corpus_stats`: the statistics of the whole corpus.
use pysearch.Base.{
  ℕ, ◌+◌, Str, Dict, none, some, List, [], ◌∷◌, ◌≡◌, refl, ap, ◌∙◌, map, lookup, put, keys, values,
  contains, Distinct, length, sum, All, concat_map, if◌then◌else◌, ◌=ₛ◌, =ₛ_iff, arith, inl, inr,
  Bool-cases, lookup-put, lookup-cons, lookup_absent, member-eq-contains, Distinct-put,
  length-append, sum-append,
}
use pysearch.Index.{
  InvertedIndex, CorpusStats, or_zero, stats_document_frequency, add_frequencies, merge_into,
  no_stats, add_part, merge_corpus_stats, frequencies_of, corpus_stats, document_frequency,
}
use pysearch.Index.Corpus.{Corpus, map_values, column, Represents}
use pysearch.Index.Columns.{map_values-append, values-append, column-append}
use pysearch.Index.Updates.{statistics_exact}

add_frequencies-add :
    (term : Str) (items merged : Dict ℕ)
    → Distinct (keys items)
    → or_zero (lookup term (add_frequencies items merged))
      ≡ or_zero (lookup term items) + or_zero (lookup term merged)
unfolding add_frequencies
add_frequencies-add term [] merged d = unfold lookup in omega arith
add_frequencies-add term ((t, n) ∷ items) merged d =
    let next = put t (or_zero (lookup t merged) + n) merged in
    add_frequencies-add term items next d.1
    ∙ rw (lookup-put t term (or_zero (lookup t merged) + n) merged, lookup-cons term t n items)
        (elim (Bool-cases (t =ₛ term)) [
          | inl e ↦
              let same : t ≡ term = (=ₛ_iff t term).0 e in
              let gone : lookup term items ≡ none =
                lookup_absent term items (rw (member-eq-contains, ← same) d.0) in
              rw (e, gone, same) (omega arith)
          | inr e ↦ rw e
        ])

-- A part whose table of frequencies is a dictionary.
abbrev pub IsTable : CorpusStats → Type 0
IsTable part = Distinct (keys part.document_frequencies)

merge_into-sum :
    (term : Str) (parts : List CorpusStats) (merged : CorpusStats)
    → All IsTable parts
    → ((merge_into merged parts).document_count
        ≡ merged.document_count + sum (map (λ p. p.document_count) parts))
      × ((merge_into merged parts).total_document_length
          ≡ merged.total_document_length + sum (map (λ p. p.total_document_length) parts))
      × (stats_document_frequency (merge_into merged parts) term
          ≡ stats_document_frequency merged term
            + sum (map (λ p. stats_document_frequency p term) parts))
unfolding merge_into add_part
merge_into-sum term [] merged a = omega arith
merge_into-sum term (part ∷ parts) merged a = omega (
  arith,
  merge_into-sum term parts (add_part merged part) a.1,
  add_frequencies-add term part.document_frequencies merged.document_frequencies a.0,
)

-- Over parts whose tables name each term once, merging adds the numbers of documents, the
-- lengths, and the frequencies of every term.
pub merge_corpus_stats-sum :
    (term : Str) (parts : List CorpusStats)
    → All IsTable parts
    → ((merge_corpus_stats parts).document_count ≡ sum (map (λ p. p.document_count) parts))
      × ((merge_corpus_stats parts).total_document_length
          ≡ sum (map (λ p. p.total_document_length) parts))
      × (stats_document_frequency (merge_corpus_stats parts) term
          ≡ sum (map (λ p. stats_document_frequency p term) parts))
unfolding merge_corpus_stats lookup
merge_corpus_stats-sum term parts a = omega (arith, merge_into-sum term parts no_stats a)

module _ (index : InvertedIndex) where
  lookup-frequencies_of :
      (term : Str) (terms : List Str) (found : Dict ℕ)
      → lookup term (frequencies_of index terms found)
        ≡ (if contains term terms then some (document_frequency index term) else lookup term found)
  unfolding frequencies_of contains
  lookup-frequencies_of term [] found = refl
  lookup-frequencies_of term (t ∷ terms) found =
      lookup-frequencies_of term terms (put t (document_frequency index t) found)
      ∙ rw lookup-put (elim (Bool-cases (t =ₛ term)) [
        | inl e ↦ let same : t ≡ term = (=ₛ_iff t term).0 e in rw (e, same) (ground arith)
        | inr e ↦ rw e
      ])

  Distinct-frequencies_of :
      (terms : List Str) (found : Dict ℕ)
      → Distinct (keys found)
      → Distinct (keys (frequencies_of index terms found))
  unfolding frequencies_of
  Distinct-frequencies_of [] found d = d
  Distinct-frequencies_of (t ∷ terms) found d =
      Distinct-frequencies_of terms _ (Distinct-put t _ found d)

  pub corpus_stats-IsTable : (terms : List Str) → IsTable (corpus_stats index terms)
  unfolding corpus_stats
  corpus_stats-IsTable terms = Distinct-frequencies_of terms [] tt

  pub corpus_stats-frequency :
      (term : Str) (terms : List Str)
      → stats_document_frequency (corpus_stats index terms) term
        ≡ (if contains term terms then document_frequency index term else 0)
  unfolding corpus_stats lookup
  corpus_stats-frequency term terms =
      ap or_zero (lookup-frequencies_of term terms []) ∙ ground arith

abbrev pub Shard : Type 0
Shard = InvertedIndex × Corpus

abbrev pub union : List Shard → Corpus
union shards = concat_map (λ s. s.1) shards

abbrev pub AllRepresent : List Shard → Type 0
AllRepresent shards = All (λ s. Represents s.0 s.1) shards

module _ (terms : List Str) where
  -- What every shard answers in the first round of a search.
  abbrev pub collected : List Shard → List CorpusStats
  collected shards = map (λ s. corpus_stats s.0 terms) shards

  pub collected-IsTable : (shards : List Shard) → All IsTable (collected shards)
  collected-IsTable [] = tt
  collected-IsTable (s ∷ shards) = (corpus_stats-IsTable s.0 terms, collected-IsTable shards)

  abbrev pub asked : Str → ℕ → ℕ
  asked term n = if contains term terms then n else 0

  asked-add : (term : Str) (n m : ℕ) → asked term (n + m) ≡ asked term n + asked term m
  asked-add term n m = ground arith

  pub collected-sum :
      (term : Str) (shards : List Shard)
      → AllRepresent shards
      → (sum (map (λ p. p.document_count) (collected shards)) ≡ length (union shards))
        × (sum (map (λ p. p.total_document_length) (collected shards))
            ≡ sum (values (map_values length (union shards))))
        × (sum (map (λ p. stats_document_frequency p term) (collected shards))
            ≡ asked term (length (column term (union shards))))
  unfolding corpus_stats
  collected-sum term [] a = unfold column in (refl, refl, ground arith)
  collected-sum term ((index, c) ∷ shards) a =
      let rest = union shards in
      rw
        (
          map_values-append length c rest,
          values-append (map_values length c),
          column-append term c rest,
          length-append (column term c),
          asked-add term (length (column term c)),
        )
        (omega (
          arith,
          collected-sum term shards a.1,
          statistics_exact index c a.0 term [],
          corpus_stats-frequency index term terms
              ∙ ap (asked term) (statistics_exact index c a.0 term []).1,
          length-append c rest,
          sum-append (values (map_values length c)) (values (map_values length rest)),
        ))

  -- Where the shards' indexes stand for corpora, and one index for all of them together, the
  -- merged statistics of the shards are those of the one index: the number of documents, the
  -- summed length, and the document frequency of every term.
  pub merge_corpus_stats-exact :
      (shards : List Shard) (whole : InvertedIndex) (term : Str)
      → AllRepresent shards
      → Represents whole (union shards)
      → ((merge_corpus_stats (collected shards)).document_count
          ≡ (corpus_stats whole terms).document_count)
        × ((merge_corpus_stats (collected shards)).total_document_length
            ≡ (corpus_stats whole terms).total_document_length)
        × (stats_document_frequency (merge_corpus_stats (collected shards)) term
            ≡ stats_document_frequency (corpus_stats whole terms) term)
  unfolding corpus_stats
  merge_corpus_stats-exact shards whole term a r = omega (
    arith,
    collected-sum term shards a,
    merge_corpus_stats-sum term (collected shards) (collected-IsTable shards),
    statistics_exact whole (union shards) r term [],
    corpus_stats-frequency whole term terms
        ∙ ap (asked term) (statistics_exact whole (union shards) r term []).1,
  )
