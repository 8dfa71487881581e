-- ===== src/Engine/Parted.antt =====
-- One engine over all documents against engines that hold them in parts.
use mathlib.Core.Option
use mathlib.Core.Path.{ap₂}
use pysearch.Base.{
  sum, map-map, Str, Dict, true, false, Option, none, some, List, [], ◌∷◌, ◌++◌, ◌≡◌, refl, ap, sym,
  subst, ◌∙◌, map, lookup, member, contains, All, concat_map, arith, or_else, lookup-append,
  member-eq-is_some, is_some, is_some-map, SameItems,
}
use pysearch.Float.{Float}
use pysearch.Document.{Document}
use pysearch.Index.Updates.{statistics_exact}
use pysearch.Index.{document_count, InvertedIndex, CorpusStats, corpus_stats, merge_corpus_stats}
use pysearch.Index.Shards.{collected-sum, Shard, union, AllRepresent}
use pysearch.Index.Parted.{
  corpus-SameItems, AgreeOn, AreDisjoint, collected-AgreeOn, Distinct-union,
}
use pysearch.VectorIndex.{Vectors}
use pysearch.Engine.{Config, Engine, tokens_of, is_ready}
use pysearch.Engine.Sync.{InSync}

module _ {fl : Float} {vs : Vectors fl} (cfg : Config vs) where
  -- The documents that engines hold together.
  abbrev pub documents_of : List (Engine vs) → Dict Document
  documents_of engines = concat_map (λ e. e.documents) engines

  -- No document is held by two engines.
  abbrev pub AreApart : List (Engine vs) → Type 0
  AreApart [] = Unit
  AreApart (e ∷ engines) =
      ((d : Str) → member d e.documents ≡ true → member d (documents_of engines) ≡ false)
      × AreApart engines

  -- An engine that holds exactly the documents of the others.
  pub record HoldsAll (whole : Engine vs) (engines : List (Engine vs)) : Type 0 where
    pub serving : is_ready whole.state ≡ true
    pub in_sync : InSync cfg whole
    pub apart : AreApart engines
    pub same : (d : Str) → lookup d whole.documents ≡ lookup d (documents_of engines)

  -- The corpora that the indexes of engines in sync stand for.
  abbrev pub shards_of : (engines : List (Engine vs)) → All (InSync cfg) engines → List Shard
  shards_of [] y = []
  shards_of (e ∷ engines) y = (e.index, y.0.derived.corpus) ∷ shards_of engines y.1

  pub AllRepresent-shards_of :
      (engines : List (Engine vs)) (y : All (InSync cfg) engines)
      → AllRepresent (shards_of engines y)
  AllRepresent-shards_of [] y = tt
  AllRepresent-shards_of (e ∷ engines) y = (y.0.derived.indexed, AllRepresent-shards_of engines y.1)

  map-shards_of :
      {A : Type 0} (f : InvertedIndex → A) (engines : List (Engine vs))
      (y : All (InSync cfg) engines)
      → map (λ s. f s.0) (shards_of engines y) ≡ map (λ e. f e.index) engines
  map-shards_of f [] y = refl
  map-shards_of f (e ∷ engines) y = ap (λ l. f e.index ∷ l) (map-shards_of f engines y.1)

  pub concat_map-shards_of :
      {A : Type 0} (f : InvertedIndex → List A) (engines : List (Engine vs))
      (y : All (InSync cfg) engines)
      → concat_map (λ s. f s.0) (shards_of engines y) ≡ concat_map (λ e. f e.index) engines
  concat_map-shards_of f [] y = refl
  concat_map-shards_of f (e ∷ engines) y =
      ap (λ l. f e.index ++ l) (concat_map-shards_of f engines y.1)

  pub map-or_else :
      {A B : Type 0} (f : A → B) (o p : Option A)
      → Option.map f (or_else o p) ≡ or_else (Option.map f o) (Option.map f p)
  map-or_else f none p = refl
  map-or_else f (some a) p = refl

  lookup-union :
      (engines : List (Engine vs)) (y : All (InSync cfg) engines) (d : Str)
      → lookup d (union (shards_of engines y))
        ≡ Option.map (tokens_of cfg) (lookup d (documents_of engines))
  lookup-union [] y d = unfold lookup in refl
  lookup-union (e ∷ engines) y d =
      lookup-append d y.0.derived.corpus (union (shards_of engines y.1))
      ∙ ap₂ or_else (y.0.derived.analyzed d) (lookup-union engines y.1 d)
      ∙ sym (map-or_else (tokens_of cfg) (lookup d e.documents) (lookup d (documents_of engines)))
      ∙ ap (Option.map (tokens_of cfg)) (sym (lookup-append d e.documents (documents_of engines)))

  -- Two dictionaries of which one is the other mapped hold the same keys.
  member-mapped :
      {A B : Type 0} (f : A → B) (d : Str) (m : Dict A) (n : Dict B)
      → lookup d n ≡ Option.map f (lookup d m)
      → member d n ≡ member d m
  member-mapped f d m n h =
      member-eq-is_some d n
      ∙ ap is_some h
      ∙ is_some-map f (lookup d m)
      ∙ sym (member-eq-is_some d m)

  pub AreDisjoint-shards_of :
      (engines : List (Engine vs)) (y : All (InSync cfg) engines)
      → AreApart engines
      → AreDisjoint (shards_of engines y)
  AreDisjoint-shards_of [] y a = tt
  AreDisjoint-shards_of (e ∷ engines) y a = (
    λ d m.
        member-mapped (tokens_of cfg) d (documents_of engines) (union (shards_of engines y.1))
          (lookup-union engines y.1 d)
        ∙ a.0 d (
            sym (
              member-mapped (tokens_of cfg) d e.documents y.0.derived.corpus
                (y.0.derived.analyzed d))
            ∙ m),
    AreDisjoint-shards_of engines y.1 a.1,
  )

  pub SameItems-union :
      (whole : Engine vs) (engines : List (Engine vs)) (y : All (InSync cfg) engines)
      (h : HoldsAll whole engines)
      → SameItems (union (shards_of engines y)) h.in_sync.derived.corpus
  SameItems-union whole engines y h = record {
    left =
        Distinct-union (shards_of engines y) (AllRepresent-shards_of engines y)
          (AreDisjoint-shards_of engines y h.apart);
    right = h.in_sync.derived.indexed.documents;
    agree = λ d.
        lookup-union engines y d
        ∙ ap (Option.map (tokens_of cfg)) (sym (h.same d))
        ∙ sym (h.in_sync.derived.analyzed d);
  }

  -- The statistics that the engines give together, for terms that include those of a query.
  abbrev pub merged_stats : List Str → List (Engine vs) → CorpusStats
  merged_stats terms engines = merge_corpus_stats (map (λ e. corpus_stats e.index terms) engines)

  pub merged_stats-AgreeOn :
      (whole : Engine vs) (engines : List (Engine vs)) (y : All (InSync cfg) engines)
      (h : HoldsAll whole engines) (terms known : List Str)
      → ((term : Str) → contains term terms ≡ true → contains term known ≡ true)
      → AgreeOn terms (merged_stats known engines) (corpus_stats whole.index terms)
  merged_stats-AgreeOn whole engines y h terms known covers =
      subst (λ parts. AgreeOn terms (merge_corpus_stats parts) (corpus_stats whole.index terms))
        (map-shards_of (λ index. corpus_stats index known) engines y)
        (collected-AgreeOn known terms (shards_of engines y) whole.index h.in_sync.derived.corpus
          (AllRepresent-shards_of engines y) h.in_sync.derived.indexed
          (SameItems-union whole engines y h) covers)

  -- The numbers of documents and of tokens add up to those of the whole.
  pub figures_together :
      (whole : Engine vs) (engines : List (Engine vs))
      → All (InSync cfg) engines
      → HoldsAll whole engines
      → (sum (map (λ e. document_count e.index) engines) ≡ document_count whole.index)
        × (sum (map (λ e. e.index.total_length) engines) ≡ whole.index.total_length)
  unfolding corpus_stats
  figures_together whole engines y h =
      let shards = shards_of engines y in
      let c = h.in_sync.derived.corpus in
      omega (
        arith,
        ap sum (
            map-map (λ p. p.document_count) (λ s. corpus_stats s.0 []) shards
            ∙ map-shards_of document_count engines y),
        ap sum (
            map-map (λ p. p.total_document_length) (λ s. corpus_stats s.0 []) shards
            ∙ map-shards_of (λ index. index.total_length) engines y),
        collected-sum [] [] shards (AllRepresent-shards_of engines y),
        statistics_exact whole.index c h.in_sync.derived.indexed [] [],
        corpus-SameItems (union shards) c [] (SameItems-union whole engines y h),
      )
