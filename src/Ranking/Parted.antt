-- ===== src/Ranking/Parted.antt =====
-- BM25 over a corpus in parts against BM25 over the whole of it: the scores depend on what the
-- statistics say of the query's terms and on which documents there are, not on their order.
use pysearch.Base.{
  ℕ, Str, Dict, Bool, true, false, Option, none, some, List, [], ◌∷◌, ◌≡◌, refl, ap, sym, ◌∙◌,
  lookup, member, keys, Distinct, length, concat_map, if◌then◌else◌, ◌==◌, ◌||◌, arith, inl, inr,
  Bool-cases, or_else, or_else-none, is_some, lookup-append, lookup_absent, member-eq-is_some,
  Distinct-put, SameItems,
}
use mathlib.Core.Path.{ap₂}
use pysearch.Float.{Float, is_zero}
use pysearch.Index.{InvertedIndex, posting_map, CorpusStats, corpus_stats, stats_document_frequency}
use pysearch.Index.Corpus.{Corpus, count, Represents}
use pysearch.Index.Parted.{AgreeOn, Distinct-append, AreDisjoint}
use pysearch.Index.Counting.{positive}
use pysearch.Index.Shards.{Shard, union, AllRepresent}
use pysearch.Ranking.{
  Bm25Params, average_document_length, score_postings, score_terms, score_query, stats_for,
  inverse_document_frequency,
}
use pysearch.Ranking.Scores.{after_term, bm25, score_in, nothing_to_score, score_query-bm25}

or_else_scored :
    {A B : Type 0} (nothing : Bool) (score : Option A → Option B)
    → score none ≡ none
    → (x y : Option A) → (is_some x ≡ true → y ≡ none)
    → or_else (if nothing then none else score x) (if nothing then none else score y)
      ≡ (if nothing then none else score (or_else x y))
or_else_scored true score e x y h = refl
or_else_scored false score e none y h = rw e
or_else_scored false score e (some a) y h = rw (h refl, e) (or_else-none (score (some a)))

module _ (fl : Float) (params : Bm25Params fl) where
  average-AgreeOn :
      (terms : List Str) (a b : CorpusStats)
      → AgreeOn terms a b
      → average_document_length fl a ≡ average_document_length fl b
  unfolding average_document_length
  average-AgreeOn terms a b h = rw (h.count, h.total)

  bm25-AgreeOn :
      (terms tokens : List Str) (a b : CorpusStats) (score : Option fl.F)
      → AgreeOn terms a b
      → bm25 fl params a tokens terms score ≡ bm25 fl params b tokens terms score
  unfolding bm25
  bm25-AgreeOn [] tokens a b score h = refl
  bm25-AgreeOn (term ∷ terms) tokens a b score h =
      let rest : AgreeOn terms a b = record {
        count = h.count;
        total = h.total;
        frequencies = h.frequencies.1;
      } in
      bm25-AgreeOn terms tokens a b _ rest
      ∙ ap (bm25 fl params b tokens terms) (
          ap₂
            (λ idf average.
              after_term fl params idf average (length tokens) (positive (count term tokens)) score)
            (ap₂ (inverse_document_frequency fl) h.frequencies.0 h.count)
            (average-AgreeOn terms a b rest))

  score_in-AgreeOn :
      (terms : List Str) (a b : CorpusStats) (tokens : Option (List Str))
      → AgreeOn terms a b
      → score_in fl params a terms tokens ≡ score_in fl params b terms tokens
  score_in-AgreeOn terms a b none h = refl
  score_in-AgreeOn terms a b (some tokens) h = bm25-AgreeOn terms tokens a b none h

  -- The scores are a dictionary.
  Distinct-score_postings :
      (index : InvertedIndex) (idf average_length : fl.F) (items : Dict ℕ) (scores : Dict fl.F)
      → Distinct (keys scores)
      → Distinct (keys (score_postings fl params index idf average_length items scores))
  unfolding score_postings
  Distinct-score_postings index idf average_length [] scores u = u
  Distinct-score_postings index idf average_length ((d, n) ∷ items) scores u =
      Distinct-score_postings index idf average_length items _ (Distinct-put d _ scores u)

  Distinct-score_terms :
      (index : InvertedIndex) (stats : CorpusStats) (average_length : fl.F) (terms : List Str)
      (scores : Dict fl.F)
      → Distinct (keys scores)
      → Distinct (keys (score_terms fl params index stats average_length terms scores))
  unfolding score_terms
  Distinct-score_terms index stats average_length [] scores u = u
  Distinct-score_terms index stats average_length (term ∷ terms) scores u =
      let idf =
        inverse_document_frequency fl (stats_document_frequency stats term) stats.document_count in
      Distinct-score_terms index stats average_length terms _
        (Distinct-score_postings index idf average_length (posting_map index term) scores u)

  pub Distinct-score_query :
      (index : InvertedIndex) (terms : List Str) (given : Option CorpusStats)
      → Distinct (keys (score_query fl params index terms given))
  unfolding score_query
  Distinct-score_query index terms given =
      let stats = stats_for fl params index terms given in
      elim (Bool-cases (nothing_to_score fl params stats)) [
        | inl e ↦ rw e tt
        | inr e ↦
            rw e (Distinct-score_terms index stats (average_document_length fl stats) terms [] tt)
      ]

  -- The scores of all the parts, one part after the other.
  abbrev pub part_scores : List Str → CorpusStats → List Shard → Dict fl.F
  part_scores terms stats shards =
      concat_map (λ s. score_query fl params s.0 terms (some stats)) shards

  abbrev score_under : CorpusStats → List Str → Option (List Str) → Option fl.F
  score_under stats terms tokens =
      if nothing_to_score fl params stats then none else score_in fl params stats terms tokens

  or_else_absent :
      (stats : CorpusStats) (terms : List Str) (d : Str) (c rest : Corpus)
      → (member d c ≡ true → member d rest ≡ false)
      → or_else (score_under stats terms (lookup d c)) (score_under stats terms (lookup d rest))
        ≡ score_under stats terms (or_else (lookup d c) (lookup d rest))
  or_else_absent stats terms d c rest h =
      or_else_scored (nothing_to_score fl params stats) (score_in fl params stats terms) refl
        (lookup d c) (lookup d rest)
        (λ found. lookup_absent d rest (h (member-eq-is_some d c ∙ found)))

  lookup-part_scores :
      (terms : List Str) (stats : CorpusStats) (shards : List Shard) (d : Str)
      → AllRepresent shards
      → AreDisjoint shards
      → lookup d (part_scores terms stats shards)
        ≡ score_under stats terms (lookup d (union shards))
  lookup-part_scores terms stats [] d a u = unfold lookup in ground arith
  lookup-part_scores terms stats ((index, c) ∷ shards) d a u =
      lookup-append d (score_query fl params index terms (some stats))
        (part_scores terms stats shards)
      ∙ ap₂ or_else (score_query-bm25 fl params index c terms (some stats) d a.0)
          (lookup-part_scores terms stats shards d a.1 u.1)
      ∙ or_else_absent stats terms d c (union shards) (u.0 d)
      ∙ ap (score_under stats terms) (sym (lookup-append d c (union shards)))

  unscored_absent :
      (m : Dict fl.F) (stats : CorpusStats) (terms : List Str) (d : Str) (c : Corpus)
      → lookup d m ≡ score_under stats terms (lookup d c)
      → member d c ≡ false
      → member d m ≡ false
  unscored_absent m stats terms d c h gone =
      member-eq-is_some d m
      ∙ ap is_some (h ∙ ap (score_under stats terms) (lookup_absent d c gone))
      ∙ nothing_either (nothing_to_score fl params stats)
    where
      nothing_either : (b : Bool) → is_some {V = fl.F} (if b then none else none) ≡ false
      nothing_either b = ground arith

  scored_known :
      (index : InvertedIndex) (c : Corpus) (terms : List Str) (stats : CorpusStats) (d : Str)
      → Represents index c
      → member d (score_query fl params index terms (some stats)) ≡ true
      → member d c ≡ true
  scored_known index c terms stats d r m = elim (Bool-cases (member d c)) [
    | inl known ↦ known
    | inr gone ↦
        let unscored =
          unscored_absent (score_query fl params index terms (some stats)) stats terms d c
            (score_query-bm25 fl params index c terms (some stats) d r) gone in
        absurd (cc (unscored, m))
  ]

  Distinct-part_scores :
      (terms : List Str) (stats : CorpusStats) (shards : List Shard)
      → AllRepresent shards
      → AreDisjoint shards
      → Distinct (keys (part_scores terms stats shards))
  Distinct-part_scores terms stats [] a u = tt
  Distinct-part_scores terms stats ((index, c) ∷ shards) a u =
      Distinct-append (score_query fl params index terms (some stats))
        (part_scores terms stats shards) (Distinct-score_query index terms (some stats))
        (Distinct-part_scores terms stats shards a.1 u.1)
        (λ d m.
          unscored_absent (part_scores terms stats shards) stats terms d (union shards)
            (lookup-part_scores terms stats shards d a.1 u.1)
            (u.0 d (scored_known index c terms stats d a.0 m)))

  -- Where the parts together hold the same documents as a whole corpus, and the statistics agree on
  -- the terms of the query, the scores of the parts are those of the whole.
  pub part_scores-SameItems :
      (terms : List Str) (stats : CorpusStats) (shards : List Shard) (whole : InvertedIndex)
      (c : Corpus)
      → AllRepresent shards
      → AreDisjoint shards
      → Represents whole c
      → ((d : Str) → lookup d (union shards) ≡ lookup d c)
      → AgreeOn terms stats (corpus_stats whole terms)
      → SameItems (part_scores terms stats shards) (score_query fl params whole terms none)
  part_scores-SameItems terms stats shards whole c a u r same agree = record {
    left = Distinct-part_scores terms stats shards a u;
    right = Distinct-score_query whole terms none;
    agree = λ d.
        lookup-part_scores terms stats shards d a u
        ∙ ap (score_under stats terms) (same d)
        ∙ ap₂ (λ nothing score. if nothing then none else score)
            (ap₂ (λ n average. n == 0 || is_zero fl average) agree.count
              (average-AgreeOn terms stats (corpus_stats whole terms) agree))
            (score_in-AgreeOn terms stats (corpus_stats whole terms) (lookup d c) agree)
        ∙ sym (score_query-bm25 fl params whole c terms none d r);
  }
