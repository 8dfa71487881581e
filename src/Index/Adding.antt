-- ===== src/Index/Adding.antt =====
-- `add_document` on a document that is not there adds exactly its statistics.
use pysearch.Base.{
  ℕ, zero, suc, Str, Dict, false, Option, none, some, List, [], ◌∷◌, ◌++◌, ◌≡◌, refl, ap, sym, ◌∙◌,
  lookup, member, put, keys, Distinct, length, ◌=ₛ◌, =ₛ_iff, arith, inl, inr, Bool-cases,
  lookup-put, lookup-cons, lookup_absent, put_absent, member-eq-contains, Distinct-put, sum-append,
}
use mathlib.Core.List.{append-nil}
use pysearch.Index.{InvertedIndex, or_empty, counter, add_postings, insert_document}
use pysearch.Index.Corpus.{
  Corpus, count, map_values, entry, column, nonempty, unique_terms, Represents,
}
use pysearch.Index.Counting.{positive, lookup-counter, Distinct-counter}
use pysearch.Index.Columns.{
  map_values-append, values-append, member-map_values, or_empty-nonempty, nonempty-snoc,
  column-append, column_absent,
}

-- The posting list of a term after a document's frequency was stored in it, if it has one.
abbrev posted : Str → Option ℕ → Option (Dict ℕ) → Option (Dict ℕ)
posted document_id none found = found
posted document_id (some n) found = some (put document_id n (or_empty found))

module _ (document_id : Str) where
  lookup-add_postings :
      (term : Str) (items : Dict ℕ) (postings : Dict (Dict ℕ))
      → Distinct (keys items)
      → lookup term (add_postings document_id items postings)
        ≡ posted document_id (lookup term items) (lookup term postings)
  unfolding add_postings
  lookup-add_postings term [] postings d = unfold lookup in refl
  lookup-add_postings term ((t, n) ∷ items) postings d =
      let stored = put document_id n (or_empty (lookup t postings)) in
      let later = lookup-add_postings term items (put t stored postings) d.1 in
      later
      ∙ rw (lookup-put t term stored postings, lookup-cons term t n items)
          (elim (Bool-cases (t =ₛ term)) [
            | inl e ↦
                let same : t ≡ term = (=ₛ_iff t term).0 e in
                let gone : lookup term items ≡ none =
                  lookup_absent term items (rw (member-eq-contains, ← same) d.0) in
                rw (e, gone, same)
            | inr e ↦ rw e
          ])

  Distinct-add_postings :
      (items : Dict ℕ) (postings : Dict (Dict ℕ))
      → Distinct (keys postings)
      → Distinct (keys (add_postings document_id items postings))
  unfolding add_postings
  Distinct-add_postings [] postings d = d
  Distinct-add_postings ((t, n) ∷ items) postings d =
      Distinct-add_postings items _ (Distinct-put t _ postings d)

  posted-column :
      (col : Dict ℕ) (n : ℕ)
      → member document_id col ≡ false
      → posted document_id (positive n) (nonempty col) ≡ nonempty (col ++ entry document_id n)
  posted-column col zero h = ap nonempty (sym (append-nil col))
  posted-column col (suc n) h =
      rw (or_empty-nonempty col, put_absent document_id (suc n) col h, nonempty-snoc col)

  column_one :
      (term : Str) (tokens : List Str)
      → column term ((document_id, tokens) ∷ []) ≡ entry document_id (count term tokens)
  unfolding column
  column_one term tokens = append-nil _

  snoc_map_values {ℓ} :
      {W : Type ℓ} (f : List Str → W) (tokens : List Str) (c : Corpus) (w : W)
      → member document_id c ≡ false
      → f tokens ≡ w
      → put document_id w (map_values f c) ≡ map_values f (c ++ (document_id, tokens) ∷ [])
  snoc_map_values f tokens c w h e =
      put_absent document_id w (map_values f c) (member-map_values f document_id c ∙ h)
      ∙ rw (← e) (sym (map_values-append f c ((document_id, tokens) ∷ [])))

  pub insert_document-Represents :
      (index : InvertedIndex) (c : Corpus) (tokens : List Str)
      → Represents index c
      → member document_id c ≡ false
      → Represents (insert_document document_id tokens index) (c ++ (document_id, tokens) ∷ [])
  unfolding insert_document
  insert_document-Represents index c tokens r h = record {
    postings = λ term.
        lookup-add_postings term (counter tokens) index.postings (Distinct-counter tokens)
        ∙ rw (lookup-counter term tokens, r.postings term)
            (posted-column (column term c) (count term tokens) (column_absent term document_id c h)
              ∙ rw (column-append term c, column_one term tokens));
    terms = rw r.terms (snoc_map_values unique_terms tokens c _ h refl);
    lengths = rw r.lengths (snoc_map_values length tokens c _ h refl);
    total =
        rw (map_values-append length c, values-append (map_values length c), sum-append)
          (omega (arith, r.total));
    documents =
        rw (← put_absent document_id tokens c h) (Distinct-put document_id tokens c r.documents);
    vocabulary = Distinct-add_postings (counter tokens) index.postings r.vocabulary;
  }
