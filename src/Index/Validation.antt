-- ===== src/Index/Validation.antt =====
-- `InvertedIndex.validate`, and that the index of a corpus passes it.
use pysearch.Base.{
  ℕ, ◌+◌, Str, Dict, Bool, true, false, none, some, List, [], ◌∷◌, ◌≡◌, refl, ap, sym, subst, ◌∙◌,
  ==_refl, ◌&&◌, not, lookup, member, keys, values, contains, Distinct, length, sum, All, ltb, ◌==◌,
  =ₛ_refl, arith, inl, inr, Bool-cases, Option-cases, lookup_absent, lookup_present,
  member_of_lookup, member-eq-contains, Result, ok, err, and_then, raise_if, for_each, for_each-ok,
  All-items, key_error, index_invariant,
}
use pysearch.Index.{InvertedIndex, counter, posting_map}
use pysearch.Index.Corpus.{Corpus, count, map_values, column, nonempty, unique_terms, Represents}
use pysearch.Index.Counting.{positive, lookup-counter, Distinct-counter, sum-counter}
use pysearch.Index.Columns.{
  lookup-map_values, keys-map_values, or_empty-nonempty, lookup-column, Distinct-column,
  column_absent, member-map_values,
}

-- set(xs) <= set(ys)
abbrev pub subset : List Str → List Str → Bool
subset [] ys = true
subset (x ∷ xs) ys = contains x ys && subset xs ys

abbrev pub same_set : List Str → List Str → Bool
same_set xs ys = subset xs ys && subset ys xs

-- The checks of one posting of a term.
check_posting : InvertedIndex → Str → Str × ℕ → Result (Unit {0})
check_posting index term (document_id, frequency) =
    and_then (raise_if (not (member document_id index.document_lengths)) index_invariant) λ _.
      and_then (raise_if (ltb frequency 1) index_invariant) λ _.
        elim (lookup document_id index.document_terms) [
          | none ↦ err key_error
          | some terms ↦ raise_if (not (contains term terms)) index_invariant
        ]

-- The checks of one posting list.
check_postings : InvertedIndex → Str × Dict ℕ → Result (Unit {0})
unfolding check_posting
check_postings index (term, []) = err index_invariant
check_postings index (term, posting ∷ postings) =
    for_each (check_posting index term) (posting ∷ postings)

-- The inner loop of the forward check, with the variable `summed`.
sum_frequencies : InvertedIndex → Str → List Str → ℕ → Result ℕ
sum_frequencies index document_id [] summed = ok summed
sum_frequencies index document_id (term ∷ terms) summed =
    elim (lookup document_id (posting_map index term)) [
      | none ↦ err index_invariant
      | some frequency ↦ sum_frequencies index document_id terms (summed + frequency)
    ]

check_document : InvertedIndex → Str × List Str → Result (Unit {0})
unfolding sum_frequencies
check_document index (document_id, terms) =
    and_then (sum_frequencies index document_id terms 0) λ summed.
      elim (lookup document_id index.document_lengths) [
        | none ↦ err key_error
        | some recorded ↦ raise_if (not (summed == recorded)) index_invariant
      ]

-- Lengths are natural numbers here, so the check for a negative one has no branch.
unfoldable pub validate : InvertedIndex → Result (Unit {0})
unfolding check_postings check_document
validate index =
    and_then
      (raise_if (not (same_set (keys index.document_terms) (keys index.document_lengths)))
        index_invariant)
      λ _.
        and_then
          (raise_if (not (index.total_length == sum (values index.document_lengths)))
            index_invariant)
          λ _.
            and_then (for_each (check_postings index) index.postings)
              λ _. for_each (check_document index) index.document_terms

subset_weaken : (x : Str) (zs xs : List Str) → subset zs xs ≡ true → subset zs (x ∷ xs) ≡ true
unfolding contains
subset_weaken x [] xs h = refl
subset_weaken x (z ∷ zs) xs h = ground (arith, subset_weaken x zs xs)

pub subset_refl : (xs : List Str) → subset xs xs ≡ true
unfolding contains
subset_refl [] = refl
subset_refl (x ∷ xs) = rw (=ₛ_refl, subset_weaken x xs xs (subset_refl xs))

-- A posting that the column of a term holds is that of a document with the term.
column_entry :
    (term : Str) (c : Corpus) (document_id : Str) (n : ℕ)
    → Distinct (keys c)
    → lookup document_id (column term c) ≡ some n
    → (tokens : List Str) × (lookup document_id c ≡ some tokens)
      × (positive (count term tokens) ≡ some n)
column_entry term c document_id n d h = elim (Bool-cases (member document_id c)) [
  | inl m ↦
      let (tokens, e) = lookup_present document_id c m in
      (tokens, e, sym (lookup-column term document_id c tokens d e) ∙ h)
  | inr m ↦ cc (lookup_absent document_id (column term c) (column_absent term document_id c m))
]

module _ {index : InvertedIndex} {c : Corpus} (r : Represents index c) where
  check_posting-ok :
      (term document_id : Str) (n : ℕ)
      → lookup document_id (column term c) ≡ some n
      → check_posting index term (document_id, n) ≡ ok tt
  unfolding check_posting
  check_posting-ok term document_id n h =
      let (tokens, e, p) = column_entry term c document_id n r.documents h in
      let here : member document_id index.document_lengths ≡ true =
        rw (r.lengths, member-map_values) (member_of_lookup document_id c tokens e) in
      let at_terms : lookup document_id index.document_terms ≡ some (unique_terms tokens) =
        rw (r.terms, lookup-map_values, e) in
      let listed : contains term (unique_terms tokens) ≡ true =
        rw (← member-eq-contains)
          (member_of_lookup term (counter tokens) n (lookup-counter term tokens ∙ p)) in
      let least : ltb n 1 ≡ false = ground arith in
      rw (here, least, at_terms, listed, check_posting)

  check_postings-ok :
      (term : Str) (col postings : Dict ℕ)
      → col ≡ column term c
      → nonempty col ≡ some postings
      → check_postings index (term, postings) ≡ ok tt
  unfolding check_postings
  check_postings-ok term [] postings e h = cc
  check_postings-ok term (x ∷ col) postings e h =
      let same : postings ≡ x ∷ col = cc in
      let distinct : Distinct (keys (x ∷ col)) =
        subst (λ l. Distinct (keys l)) (sym e) (Distinct-column term c r.documents) in
      rw same (
        for_each-ok (check_posting index term) (x ∷ col) (
          All-items (λ p. check_posting index term p ≡ ok tt) (x ∷ col) distinct
            (λ k v found. check_posting-ok term k v (rw e at found))))

  -- The forward check of a document sums the entries of its `Counter`.
  sum_frequencies-ok :
      (document_id : Str) (counts : Dict ℕ) (summed : ℕ)
      → All (λ p. lookup document_id (column p.0 c) ≡ some p.1) counts
      → sum_frequencies index document_id (keys counts) summed ≡ ok (summed + sum (values counts))
  unfolding sum_frequencies
  sum_frequencies-ok document_id [] summed a = ap ok (omega arith)
  sum_frequencies-ok document_id ((term, n) ∷ counts) summed a =
      rw (r.postings term, or_empty-nonempty, a.0, sum_frequencies)
        (sum_frequencies-ok document_id counts (summed + n) a.1 ∙ ap ok (omega arith))

  check_document-ok :
      (document_id : Str) (terms : List Str)
      → lookup document_id index.document_terms ≡ some terms
      → check_document index (document_id, terms) ≡ ok tt
  unfolding check_document
  check_document-ok document_id terms h = elim (Option-cases (lookup document_id c)) [
    | inl e ↦ cc (e, r.terms, lookup-map_values unique_terms document_id c)
    | inr (tokens, e) ↦
        let stored : lookup document_id index.document_terms ≡ some (unique_terms tokens) =
          rw (r.terms, lookup-map_values, e) in
        let same : unique_terms tokens ≡ terms = cc in
        let recorded : lookup document_id index.document_lengths ≡ some (length tokens) =
          rw (r.lengths, lookup-map_values, e) in
        let summed = sum_frequencies-ok document_id (counter tokens) 0 (
          All-items (λ p. lookup document_id (column p.0 c) ≡ some p.1) (counter tokens)
            (Distinct-counter tokens)
            (λ k v found.
              lookup-column k document_id c tokens r.documents e
              ∙ sym (lookup-counter k tokens)
              ∙ found)) in
        let total : 0 + sum (values (counter tokens)) ≡ length tokens =
          omega (arith, sum-counter tokens) in
        rw (← same) (rw (summed, recorded, total, check_document) (rw ==_refl))
  ]

-- An index that stands for a corpus passes its own validation.
pub validate-ok : (index : InvertedIndex) (c : Corpus) → Represents index c → validate index ≡ ok tt
unfolding validate
validate-ok index c r =
    let lists : for_each (check_postings index) index.postings ≡ ok tt =
      for_each-ok (check_postings index) index.postings (
        All-items (λ p. check_postings index p ≡ ok tt) index.postings r.vocabulary
          (λ term postings h.
            check_postings-ok r term (column term c) postings refl (sym (r.postings term) ∙ h))) in
    let distinct : Distinct (keys index.document_terms) =
      rw (r.terms, keys-map_values) r.documents in
    let forward : for_each (check_document index) index.document_terms ≡ ok tt =
      for_each-ok (check_document index) index.document_terms (
        All-items (λ p. check_document index p ≡ ok tt) index.document_terms distinct
          (check_document-ok r)) in
    let covered : subset (keys index.document_terms) (keys index.document_lengths) ≡ true =
      rw (r.terms, r.lengths, keys-map_values, keys-map_values) (subset_refl (keys c)) in
    let covers : subset (keys index.document_lengths) (keys index.document_terms) ≡ true =
      rw (r.terms, r.lengths, keys-map_values, keys-map_values) (subset_refl (keys c)) in
    let total : (index.total_length == sum (values index.document_lengths)) ≡ true =
      rw (r.total, r.lengths) (==_refl (sum (values (map_values length c)))) in
    rw (covered, covers, total, lists) forward
