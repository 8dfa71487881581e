-- ===== src/Engine/Derived.antt =====
-- The derived state of an engine against the durable rows: the cache holds the stored documents,
-- and the index is the index of their tokens.
use mathlib.Core.Option
use pysearch.Base.{
  Str, Dict, true, none, some, List, [], ◌∷◌, ◌≡◌, refl, ap, sym, ◌∙◌, lookup, member, put, remove,
  if◌then◌else◌, ◌=ₛ◌, =ₛ_iff, arith, inl, inr, Bool-cases, lookup-put, lookup-remove, lookup-cons,
  lookup-append, or_else-none, map-if_some, map-if_none, is_some-map, member-eq-is_some, is_some,
  ok,
}
use pysearch.Float.{Float}
use pysearch.Document.{Document}
use pysearch.Index.{InvertedIndex, empty_index, add_document, remove_document}
use pysearch.Index.Corpus.{Corpus, Represents, with_document}
use pysearch.Index.Updates.{
  add_document-Represents, remove_document-Represents, empty_index-Represents,
}
use pysearch.VectorIndex.{Vectors}
use pysearch.Engine.{Config, tokens_of}

lookup-with_document :
    (k j : Str) (tokens : List Str) (c : Corpus)
    → lookup j (with_document k tokens c) ≡ (if k =ₛ j then some tokens else lookup j c)
lookup-with_document k j tokens c =
    lookup-append j (remove k c) ((k, tokens) ∷ [])
    ∙ rw (lookup-remove, lookup-cons)
        (elim (Bool-cases (k =ₛ j)) [
          | inl e ↦ rw e
          | inr e ↦ rw e (unfold lookup in or_else-none (lookup j c))
        ])

module _ {fl : Float} {vs : Vectors fl} (cfg : Config vs) where
  pub record Derived (documents : Dict Document) (index : InvertedIndex) (rows : Dict Str)
      : Type 0 where
    pub corpus : Corpus
    pub indexed : Represents index corpus
    pub analyzed : (d : Str) → lookup d corpus ≡ Option.map (tokens_of cfg) (lookup d documents)
    pub stored : (d : Str) → lookup d rows ≡ Option.map (λ x. x.text) (lookup d documents)
    pub named : (d : Str) (x : Document) → lookup d documents ≡ some x → x.document_id ≡ d

  pub Derived-empty : Derived [] empty_index []
  unfolding lookup
  Derived-empty = record {
    corpus = [];
    indexed = empty_index-Represents;
    analyzed = λ d. refl;
    stored = λ d. refl;
    named = λ d x h. cc;
  }

  -- Storing a document in all three.
  pub Derived-put :
      (documents : Dict Document) (index : InvertedIndex) (rows : Dict Str) (x : Document)
      → Derived documents index rows
      → ((add_document x.document_id (tokens_of cfg x) index).0 ≡ ok tt)
        × Derived
            (put x.document_id x documents)
            (add_document x.document_id (tokens_of cfg x) index).1
            (put x.document_id x.text rows)
  Derived-put documents index rows x v =
      let added =
        add_document-Represents index v.corpus x.document_id v.indexed (tokens_of cfg x) in
      (
        added.0,
        record {
          corpus = with_document x.document_id (tokens_of cfg x) v.corpus;
          indexed = added.1;
          analyzed = λ d.
              rw (lookup-with_document, lookup-put)
                (map-if_some (tokens_of cfg) (x.document_id =ₛ d) x (lookup d documents) _
                  (v.analyzed d));
          stored = λ d.
              rw (lookup-put, lookup-put)
                (map-if_some (λ y. y.text) (x.document_id =ₛ d) x (lookup d documents) _
                  (v.stored d));
          named = λ d y h. put_named d y (rw lookup-put at h);
        },
      )
    where
      put_named :
          (d : Str) (y : Document)
          → (if x.document_id =ₛ d then some x else lookup d documents) ≡ some y
          → y.document_id ≡ d
      put_named d y h = ground (arith, =ₛ_iff x.document_id d, v.named d y)

  -- Removing a document that is there from all three.
  pub Derived-remove :
      (documents : Dict Document) (index : InvertedIndex) (rows : Dict Str) (d : Str)
      → Derived documents index rows
      → member d documents ≡ true
      → ((remove_document d index).0 ≡ ok tt)
        × Derived (remove d documents) (remove_document d index).1 (remove d rows)
  Derived-remove documents index rows d v m =
      let known : member d v.corpus ≡ true =
        member-eq-is_some d v.corpus
        ∙ ap is_some (v.analyzed d)
        ∙ is_some-map (tokens_of cfg) (lookup d documents)
        ∙ sym (member-eq-is_some d documents)
        ∙ m in
      let removed = (remove_document-Represents index v.corpus d v.indexed).0 known in
      (
        removed.0,
        record {
          corpus = remove d v.corpus;
          indexed = removed.1;
          analyzed = λ j.
              rw (lookup-remove, lookup-remove)
                (map-if_none (tokens_of cfg) (d =ₛ j) (lookup j documents) _ (v.analyzed j));
          stored = λ j.
              rw (lookup-remove, lookup-remove)
                (map-if_none (λ y. y.text) (d =ₛ j) (lookup j documents) _ (v.stored j));
          named = λ j y h. removed_named j y (rw lookup-remove at h);
        },
      )
    where
      removed_named :
          (j : Str) (y : Document)
          → (if d =ₛ j then none else lookup j documents) ≡ some y
          → y.document_id ≡ j
      removed_named j y h = ground (arith, v.named j y)
