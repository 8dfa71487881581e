-- ===== src/Engine/Reloading.antt =====
-- The rows read back in the order of their identifiers, as a rebuild reads them.
use pysearch.Base.{
  Str, Dict, none, List, [], ◌∷◌, ◌≡◌, refl, ◌∙◌, map, lookup, put, keys, Distinct, ◌=ₛ◌, =ₛ_iff,
  inl, inr, Bool-cases, lookup-put, lookup-cons, lookup_absent, member-eq-contains, or_else,
  or_else-none, sorted, lookup-sorted, Distinct-sorted,
}
use pysearch.Document.{Document}
use pysearch.Storage.{document_of, row_le}

-- The rows that the loop of a rebuild has gone through.
unfoldable pub put_all : List Document → Dict Str → Dict Str
put_all [] rows = rows
put_all (x ∷ stored) rows = put_all stored (put x.document_id x.text rows)

lookup-put_all :
    (d : Str) (items rows : Dict Str)
    → Distinct (keys items)
    → lookup d (put_all (map document_of items) rows) ≡ or_else (lookup d items) (lookup d rows)
unfolding put_all
lookup-put_all d [] rows u = unfold lookup in refl
lookup-put_all d ((k, t) ∷ items) rows u =
    lookup-put_all d items (put k t rows) u.1
    ∙ rw (lookup-put k d t rows, lookup-cons d k t items)
        (elim (Bool-cases (k =ₛ d)) [
          | inl e ↦
              let same : k ≡ d = (=ₛ_iff k d).0 e in
              let gone : lookup d items ≡ none =
                lookup_absent d items (rw (member-eq-contains, ← same) u.0) in
              rw (e, gone)
          | inr e ↦ rw e
        ])

-- Reading the rows in the order of their identifiers and storing each gives the rows back.
pub lookup-reloaded :
    (d : Str) (rows : Dict Str)
    → Distinct (keys rows)
    → lookup d (put_all (map document_of (sorted row_le rows)) []) ≡ lookup d rows
lookup-reloaded d rows u =
    lookup-put_all d (sorted row_le rows) [] (Distinct-sorted row_le rows u)
    ∙ unfold lookup in or_else-none (lookup d (sorted row_le rows)) ∙ lookup-sorted row_le d rows u
