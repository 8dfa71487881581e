-- ===== src/Ranking/Scores.antt =====
-- The score that `score_query` gives to a document depends on its tokens and on the statistics alone.
use pysearch.Base.{
  ℕ, Str, Dict, Bool, true, false, ◌||◌, Option, none, some, List, [], ◌∷◌, ◌≡◌, refl, ap, subst,
  sym, ◌∙◌, lookup, member, put, keys, Distinct, length, if◌then◌else◌, ◌==◌, ◌=ₛ◌, =ₛ_iff, inl,
  inr, Bool-cases, lookup-put, lookup-cons, lookup_absent, lookup_present, member-eq-contains,
}
use pysearch.Float.{Float, is_zero}
use pysearch.Index.{
  InvertedIndex, CorpusStats, posting_map, document_length, stats_document_frequency,
}
use pysearch.Index.Corpus.{Corpus, count, column, Represents}
use pysearch.Index.Counting.{positive}
use pysearch.Index.Columns.{lookup-column, column_absent, Distinct-column}
use pysearch.Index.Updates.{posting_map-eq-column, document_length-eq, length_of}
use pysearch.Ranking.{
  Bm25Params, average_document_length, inverse_document_frequency, or_zero_score, contribution,
  score_postings, score_terms, score_query, stats_for,
}
use mathlib.Core.Path.{ap₂}

module _ (fl : Float) (params : Bm25Params fl) where
  open fl use {F, add, of_nat}

  -- A score after one term: unchanged if the document does not have it.
  abbrev pub after_term : F → F → ℕ → Option ℕ → Option F → Option F
  after_term idf average_length dl none score = score
  after_term idf average_length dl (some tf) score =
      some (add (or_zero_score fl score) (contribution fl params idf average_length tf dl))

  -- The BM25 sum over the query's terms, for a document given by its tokens. There is no score
  -- where no term occurs.
  unfoldable pub bm25 : CorpusStats → List Str → List Str → Option F → Option F
  bm25 stats tokens [] score = score
  bm25 stats tokens (term ∷ terms) score =
      let idf =
        inverse_document_frequency fl (stats_document_frequency stats term) stats.document_count in
      bm25 stats tokens terms (
        after_term idf (average_document_length fl stats) (length tokens)
          (positive (count term tokens)) score)

  lookup-score_postings :
      (index : InvertedIndex) (idf average_length : F) (d : Str) (items : Dict ℕ) (scores : Dict F)
      → Distinct (keys items)
      → lookup d (score_postings fl params index idf average_length items scores)
        ≡ after_term idf average_length (document_length index d) (lookup d items) (lookup d scores)
  unfolding score_postings
  lookup-score_postings index idf average_length d [] scores k = unfold lookup in refl
  lookup-score_postings index idf average_length d ((j, n) ∷ items) scores k =
      let added =
        add (or_zero_score fl (lookup j scores))
          (contribution fl params idf average_length n (document_length index j)) in
      lookup-score_postings index idf average_length d items (put j added scores) k.1
      ∙ rw (lookup-put j d added scores, lookup-cons d j n items)
          (elim (Bool-cases (j =ₛ d)) [
            | inl e ↦
                let same : j ≡ d = (=ₛ_iff j d).0 e in
                let gone : lookup d items ≡ none =
                  lookup_absent d items (rw (member-eq-contains, ← same) k.0) in
                rw (e, gone, same)
            | inr e ↦ rw e
          ])

  module _ {index : InvertedIndex} {c : Corpus} (r : Represents index c) (stats : CorpusStats)
      (d : Str) where
    abbrev average : F
    average = average_document_length fl stats

    abbrev idf_of : Str → F
    idf_of term =
        inverse_document_frequency fl (stats_document_frequency stats term) stats.document_count

    one_term :
        (term : Str) (scores : Dict F)
        → lookup d
            (score_postings fl params index (idf_of term) average (posting_map index term) scores)
          ≡ after_term
              (idf_of term)
              average
              (document_length index d)
              (lookup d (column term c))
              (lookup d scores)
    one_term term scores =
        lookup-score_postings index (idf_of term) average d (posting_map index term) scores (
          subst (λ l. Distinct (keys l)) (sym (posting_map-eq-column index c r term))
            (Distinct-column term c r.documents))
        ∙ ap
            (λ l.
              after_term (idf_of term) average (document_length index d) (lookup d l)
                (lookup d scores))
            (posting_map-eq-column index c r term)

    lookup-score_terms :
        (tokens terms : List Str) (scores : Dict F)
        → lookup d c ≡ some tokens
        → lookup d
            (score_terms fl params index stats (average_document_length fl stats) terms scores)
          ≡ bm25 stats tokens terms (lookup d scores)
    unfolding score_terms bm25
    lookup-score_terms tokens [] scores h = refl
    lookup-score_terms tokens (term ∷ terms) scores h =
        let dl : document_length index d ≡ length tokens =
          document_length-eq index c r d ∙ ap length_of h in
        let tf : lookup d (column term c) ≡ positive (count term tokens) =
          lookup-column term d c tokens r.documents h in
        lookup-score_terms tokens terms _ h
        ∙ ap (bm25 stats tokens terms) (
            one_term term scores
            ∙ ap₂ (λ l p. after_term (idf_of term) average l p (lookup d scores)) dl tf)

    lookup-score_terms_absent :
        (terms : List Str) (scores : Dict F)
        → member d c ≡ false
        → lookup d
            (score_terms fl params index stats (average_document_length fl stats) terms scores)
          ≡ lookup d scores
    unfolding score_terms
    lookup-score_terms_absent [] scores h = refl
    lookup-score_terms_absent (term ∷ terms) scores h =
        lookup-score_terms_absent terms _ h
        ∙ one_term term scores
        ∙ ap (λ p. after_term (idf_of term) average (document_length index d) p (lookup d scores))
            (lookup_absent d (column term c) (column_absent term d c h))

-- The score of a document in a corpus: none for a document that is not there.
abbrev pub score_in :
    (fl : Float) → Bm25Params fl → CorpusStats → List Str → Option (List Str) → Option fl.F
score_in fl params stats terms none = none
score_in fl params stats terms (some tokens) = bm25 fl params stats tokens terms none

module _ (fl : Float) (params : Bm25Params fl) where
  -- A corpus without tokens: N or avgdl is zero.
  abbrev pub nothing_to_score : CorpusStats → Bool
  nothing_to_score stats =
      stats.document_count == 0 || is_zero fl (average_document_length fl stats)

  -- On the index of a corpus, the score of a document is the BM25 sum over the query's terms of
  -- the document's own tokens, under the statistics in force, and a document that is not in the
  -- corpus has none. With no documents or an average length of zero there are no scores.
  pub score_query-bm25 :
      (index : InvertedIndex) (c : Corpus) (terms : List Str) (given : Option CorpusStats) (d : Str)
      → Represents index c
      → lookup d (score_query fl params index terms given) ≡ (
          if nothing_to_score (stats_for fl params index terms given)
          then none
          else score_in fl params (stats_for fl params index terms given) terms (lookup d c))
  unfolding score_query
  score_query-bm25 index c terms given d r =
      let stats = stats_for fl params index terms given in
      elim (Bool-cases (nothing_to_score stats)) [
        | inl e ↦ rw e (unfold lookup in refl)
        | inr e ↦ rw e (elim (Bool-cases (member d c)) [
          | inl m ↦
              let (tokens, h) = lookup_present d c m in
              lookup-score_terms fl params r stats d tokens terms [] h
              ∙ rw h (unfold lookup in refl)
          | inr m ↦
              lookup-score_terms_absent fl params r stats d terms [] m
              ∙ rw (lookup_absent d c m) (unfold lookup in refl)
        ])
      ]

  -- A query without terms scores nothing.
  pub score_query_empty :
      (index : InvertedIndex) (given : Option CorpusStats)
      → score_query fl params index [] given ≡ []
  unfolding score_query score_terms
  score_query_empty index given =
      elim (Bool-cases (nothing_to_score (stats_for fl params index [] given))) [
        | inl e ↦ rw e
        | inr e ↦ rw e
      ]

  -- Statistics of no tokens score nothing.
  pub score_query_nothing :
      (index : InvertedIndex) (terms : List Str) (stats : CorpusStats)
      → (stats.document_count == 0) ≡ true
      → score_query fl params index terms (some stats) ≡ []
  unfolding score_query
  score_query_nothing index terms stats h = rw h
