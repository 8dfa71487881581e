-- ===== src/Index/Removing.antt =====
-- `remove_document` raises nothing on an indexed document, and removes exactly its statistics.
use pysearch.Base.{
  ℕ, Str, Dict, true, false, some, List, [], ◌∷◌, ◌≡◌, refl, ap, sym, ◌∙◌, lookup, member, remove,
  keys, contains, Distinct, length, All, All-of_contains, if◌then◌else◌, member-eq-is_some, ◌=ₛ◌,
  =ₛ_iff, arith, inl, inr, Bool-cases, lookup-put, lookup-remove, member-eq-contains, remove_absent,
  Distinct-put, Distinct-remove, ok,
}
use mathlib.Core.Option
use pysearch.Index.{
  InvertedIndex, or_empty, counter, store_rest, drop_posting, drop_postings, finish_remove,
  remove_document,
}
use pysearch.Index.Corpus.{Corpus, map_values, column, nonempty, unique_terms, Represents}
use pysearch.Index.Counting.{lookup-counter, Distinct-counter}
use pysearch.Index.Columns.{
  map_values-remove, lookup-map_values, keys-map_values, or_empty-nonempty, column-remove,
  lookup-column, sum-remove,
}

lookup-store_rest :
    (t term : Str) (rest : Dict ℕ) (postings : Dict (Dict ℕ))
    → lookup term (store_rest t rest postings)
      ≡ (if t =ₛ term then nonempty rest else lookup term postings)
unfolding store_rest
lookup-store_rest t term [] postings = lookup-remove t term postings
lookup-store_rest t term (x ∷ rest) postings = lookup-put t term (x ∷ rest) postings

Distinct-store_rest :
    (t : Str) (rest : Dict ℕ) (postings : Dict (Dict ℕ))
    → Distinct (keys postings)
    → Distinct (keys (store_rest t rest postings))
unfolding store_rest
Distinct-store_rest t [] postings d = Distinct-remove t postings d
Distinct-store_rest t (x ∷ rest) postings d = Distinct-put t (x ∷ rest) postings d

module _ (document_id : Str) where
  -- The document is in the posting list of the term.
  abbrev IsPosted : Dict (Dict ℕ) → Str → Type 0
  IsPosted postings t = member document_id (or_empty (lookup t postings)) ≡ true

  drop_posting_present :
      (t : Str) (postings : Dict (Dict ℕ))
      → IsPosted postings t
      → drop_posting document_id t postings
        ≡ (ok tt, store_rest t (remove document_id (or_empty (lookup t postings))) postings)
  unfolding drop_posting member
  drop_posting_present t postings h = ground arith

  IsPosted-store_rest :
      (t : Str) (rest : Dict ℕ) (postings : Dict (Dict ℕ)) (ts : List Str)
      → contains t ts ≡ false
      → All (IsPosted postings) ts
      → All (IsPosted (store_rest t rest postings)) ts
  unfolding contains
  IsPosted-store_rest t rest postings [] h a = tt
  IsPosted-store_rest t rest postings (u ∷ ts) h a =
      let other : (t =ₛ u) ≡ false = ground (arith, =ₛ_iff t u, =ₛ_iff u t) in
      (
        rw (lookup-store_rest t u rest postings, other) a.0,
        IsPosted-store_rest t rest postings ts (ground arith) a.1,
      )

  -- What the loop leaves: the postings of the document are gone from the listed terms.
  record Dropped (terms : List Str) (postings : Dict (Dict ℕ)) : Type 0 where
    left : Dict (Dict ℕ)
    returns : drop_postings document_id terms postings ≡ (ok tt, left)
    at_term :
        (term : Str)
        → lookup term left ≡ (
            if contains term terms
            then nonempty (remove document_id (or_empty (lookup term postings)))
            else lookup term postings)
    vocabulary : Distinct (keys postings) → Distinct (keys left)

  drop_postings-Dropped :
      (terms : List Str) (postings : Dict (Dict ℕ))
      → Distinct terms
      → All (IsPosted postings) terms
      → Dropped terms postings
  unfolding drop_postings contains
  drop_postings-Dropped [] postings d a = record {
    left = postings;
    returns = refl;
    at_term = λ term. refl;
    vocabulary = λ v. v;
  }
  drop_postings-Dropped (t ∷ terms) postings d a =
      let rest = remove document_id (or_empty (lookup t postings)) in
      let next = store_rest t rest postings in
      let rec =
        drop_postings-Dropped terms next d.1 (IsPosted-store_rest t rest postings terms d.0 a.1) in
      record {
        left = rec.left;
        returns = rw (drop_posting_present t postings a.0) rec.returns;
        at_term =
            λ term. rec.at_term term ∙ rw (lookup-store_rest t term rest postings) (settle term);
        vocabulary = λ v. rec.vocabulary (Distinct-store_rest t rest postings v);
      }
    where
      settle :
          (term : Str)
          → (if contains term terms
              then nonempty (
                  remove document_id (
                    or_empty (
                      if t =ₛ term
                      then nonempty (remove document_id (or_empty (lookup t postings)))
                      else lookup term postings)))
              else if t =ₛ term
              then nonempty (remove document_id (or_empty (lookup t postings)))
              else lookup term postings)
            ≡ (if contains term (t ∷ terms)
                then nonempty (remove document_id (or_empty (lookup term postings)))
                else lookup term postings)
      settle term = elim (Bool-cases (t =ₛ term)) [
        | inl e ↦
            let same : t ≡ term = (=ₛ_iff t term).0 e in
            let gone : contains term terms ≡ false = rw same at d.0 in rw (e, gone, same)
        | inr e ↦ rw e
      ]

module _ {index : InvertedIndex} {c : Corpus} (r : Represents index c) (document_id : Str)
    (tokens : List Str) (h : lookup document_id c ≡ some tokens) where
  -- The document is in the column of a term exactly if the term is one of its tokens.
  member-column :
      (term : Str) → member document_id (column term c) ≡ contains term (unique_terms tokens)
  member-column term =
      member-eq-is_some document_id (column term c)
      ∙ rw (lookup-column term document_id c tokens r.documents h, ← lookup-counter term tokens)
          (sym (member-eq-is_some term (counter tokens)) ∙ member-eq-contains term (counter tokens))

  terms-IsPosted : All (IsPosted document_id index.postings) (unique_terms tokens)
  terms-IsPosted =
      All-of_contains (IsPosted document_id index.postings) (unique_terms tokens)
        λ t k. rw (r.postings t, or_empty-nonempty, member-column t) k

  lengths_at : lookup document_id index.document_lengths ≡ some (length tokens)
  lengths_at = rw r.lengths (lookup-map_values length document_id c ∙ ap (Option.map length) h)

  terms_at : lookup document_id index.document_terms ≡ some (unique_terms tokens)
  terms_at =
      rw r.terms (lookup-map_values unique_terms document_id c ∙ ap (Option.map unique_terms) h)

  finish_remove-Represents :
      (dropped : Dropped document_id (unique_terms tokens) index.postings)
      → Represents
          (finish_remove document_id (length tokens) index (ok tt, dropped.left)).1
          (remove document_id c)
  unfolding finish_remove
  finish_remove-Represents dropped = record {
    postings = λ term.
        dropped.at_term term
        ∙ rw (r.postings term, or_empty-nonempty, column-remove, ← member-column term)
            (elim (Bool-cases (member document_id (column term c))) [
              | inl e ↦ rw e
              | inr e ↦ rw (e, remove_absent document_id (column term c) e)
            ]);
    terms = rw r.terms (sym (map_values-remove unique_terms document_id c));
    lengths = rw r.lengths (sym (map_values-remove length document_id c));
    total = rw (map_values-remove length document_id c) (
        omega (
          arith,
          r.total,
          sum-remove document_id (map_values length c) (length tokens)
              (rw (keys-map_values length c) r.documents) (rw r.lengths at lengths_at),
        ));
    documents = Distinct-remove document_id c r.documents;
    vocabulary = dropped.vocabulary r.vocabulary;
  }

  -- The record of the new index, beside the fact that nothing was raised.
  pub remove_indexed :
      (next : InvertedIndex) × (remove_document document_id index ≡ (ok tt, next))
      × Represents next (remove document_id c)
  unfolding remove_document
  remove_indexed =
      let dropped =
        drop_postings-Dropped document_id (unique_terms tokens) index.postings
          (Distinct-counter tokens) terms-IsPosted in
      (
        (finish_remove document_id (length tokens) index (ok tt, dropped.left)).1,
        rw (lengths_at, terms_at, dropped.returns, remove_document),
        finish_remove-Represents dropped,
      )
