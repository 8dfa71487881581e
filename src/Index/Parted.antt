-- ===== src/Index/Parted.antt =====
-- A corpus in parts, and the same documents in another order.
use pysearch.Base.{
  ℕ, zero, suc, ◌+◌, Str, Dict, true, false, List, [], ◌∷◌, ◌++◌, ◌≡◌, refl, ap, sym, ◌∙◌, map,
  member, keys, values, contains, Distinct, length, sum, All, =ₛ_refl, arith, member-append,
  member-cons, member-eq-contains, length-append, SameItems, sum-SameItems, length-SameItems,
  All-of_contains,
}
use mathlib.Core.Path.{ap₂}
use pysearch.Index.{
  InvertedIndex, CorpusStats, corpus_stats, stats_document_frequency, merge_corpus_stats,
  document_frequency,
}
use pysearch.Index.Corpus.{Corpus, count, map_values, entry, column, Represents}
use pysearch.Index.Updates.{statistics_exact}
use pysearch.Index.Shards.{
  Shard, union, AllRepresent, collected, collected-sum, collected-IsTable, merge_corpus_stats-sum,
  asked, corpus_stats-frequency,
}

present : ℕ → ℕ
present zero = 0
present (suc n) = 1

length-entry : (d : Str) (n : ℕ) → length (entry d n) ≡ present n
unfolding present
length-entry d zero = refl
length-entry d (suc n) = refl

length-column :
    (term : Str) (c : Corpus) → length (column term c) ≡ sum (map (λ p. present (count term p.1)) c)
unfolding column
length-column term [] = refl
length-column term ((d, tokens) ∷ c) =
    length-append (entry d (count term tokens)) (column term c)
    ∙ ap₂ (λ n m. n + m) (length-entry d (count term tokens)) (length-column term c)

sum-lengths : (c : Corpus) → sum (values (map_values length c)) ≡ sum (map (λ p. length p.1) c)
sum-lengths [] = refl
sum-lengths ((d, tokens) ∷ c) = ap (λ n. length tokens + n) (sum-lengths c)

-- What BM25 reads of a corpus does not depend on the order of its documents.
pub corpus-SameItems :
    (c c' : Corpus) (term : Str)
    → SameItems c c'
    → (length c ≡ length c')
      × (sum (values (map_values length c)) ≡ sum (values (map_values length c')))
      × (length (column term c) ≡ length (column term c'))
corpus-SameItems c c' term h = (
  length-SameItems c c' h,
  sum-lengths c ∙ sum-SameItems (λ p. length p.1) c c' h ∙ sym (sum-lengths c'),
  length-column term c
      ∙ sum-SameItems (λ p. present (count term p.1)) c c' h
      ∙ sym (length-column term c'),
)

pub Distinct-append {ℓ} :
    {V : Type ℓ} (m n : Dict V)
    → Distinct (keys m)
    → Distinct (keys n)
    → ((d : Str) → member d m ≡ true → member d n ≡ false)
    → Distinct (keys (m ++ n))
Distinct-append [] n u v h = v
Distinct-append ((k, w) ∷ m) n u v h = (
  sym (member-eq-contains k (m ++ n))
      ∙ member-append k m n
      ∙ rw (member-eq-contains k m ∙ u.0) (h k (rw (member-cons, =ₛ_refl))),
  Distinct-append m n u.1 v (λ d i. h d (ground (arith, member-cons d k w m))),
)

-- Two statistics that say the same of the terms of a query.
pub record AgreeOn (terms : List Str) (a b : CorpusStats) : Type 0 where
  pub count : a.document_count ≡ b.document_count
  pub total : a.total_document_length ≡ b.total_document_length
  pub frequencies :
      All (λ term. stats_document_frequency a term ≡ stats_document_frequency b term) terms

module _ (known terms : List Str) (shards : List Shard) (whole : InvertedIndex) (c : Corpus)
    (a : AllRepresent shards) (r : Represents whole c) (same : SameItems (union shards) c) where
  numbers_agree :
      ((merge_corpus_stats (collected known shards)).document_count
        ≡ (corpus_stats whole terms).document_count)
      × ((merge_corpus_stats (collected known shards)).total_document_length
          ≡ (corpus_stats whole terms).total_document_length)
  unfolding corpus_stats
  numbers_agree = omega (
    arith,
    collected-sum known [] shards a,
    merge_corpus_stats-sum [] (collected known shards) (collected-IsTable known shards),
    statistics_exact whole c r [] [],
    corpus-SameItems (union shards) c [] same,
  )

  frequency_agrees :
      (term : Str)
      → contains term known ≡ true
      → contains term terms ≡ true
      → stats_document_frequency (merge_corpus_stats (collected known shards)) term
        ≡ stats_document_frequency (corpus_stats whole terms) term
  frequency_agrees term i j =
      let counted : asked known term (length (column term (union shards)))
          ≡ length (column term (union shards)) =
        rw i in
      let own : stats_document_frequency (corpus_stats whole terms) term
          ≡ document_frequency whole term =
        corpus_stats-frequency whole term terms ∙ rw j in
      omega (
        arith,
        counted,
        own,
        collected-sum known term shards a,
        merge_corpus_stats-sum term (collected known shards) (collected-IsTable known shards),
        statistics_exact whole c r term [],
        corpus-SameItems (union shards) c term same,
      )

  -- Where parts hold the documents of a whole corpus, their merged statistics agree with those of
  -- the whole on every term that was asked for.
  pub collected-AgreeOn :
      ((term : Str) → contains term terms ≡ true → contains term known ≡ true)
      → AgreeOn terms (merge_corpus_stats (collected known shards)) (corpus_stats whole terms)
  collected-AgreeOn covers = record {
    count = numbers_agree.0;
    total = numbers_agree.1;
    frequencies = All-of_contains _ terms (λ term j. frequency_agrees term (covers term j) j);
  }

-- No document is in two parts.
abbrev pub AreDisjoint : List Shard → Type 0
AreDisjoint [] = Unit
AreDisjoint (s ∷ shards) =
    ((d : Str) → member d s.1 ≡ true → member d (union shards) ≡ false) × AreDisjoint shards

pub Distinct-union :
    (shards : List Shard)
    → AllRepresent shards
    → AreDisjoint shards
    → Distinct (keys (union shards))
Distinct-union [] a u = tt
Distinct-union ((index, c) ∷ shards) a u =
    Distinct-append c (union shards) a.0.documents (Distinct-union shards a.1 u.1) u.0
