-- ===== src/Engine/Batches.antt =====
-- `_rebuild_vectors` of app/search/engine.py against a rebuild without batches.
mod Each
use mathlib.Core.Option
use pysearch.Base.{
  ℕ, zero, suc, ◌≤◌, Str, Dict, true, Option, some, List, [], ◌∷◌, ◌++◌, ◌≡◌, ◌≢◌, refl, ap, sym,
  subst, ◌∙◌, map, lookup, member, keys, contains, contains-sorted, member-eq-contains,
  lookup_present, lookup_absent, length, take, drop, sorted, str_le, take-append-drop, length-drop,
  All, All-of_contains, arith, inl, inr, Bool-cases, Result, Result-cases, ok, err, and_then, ◌=ₛ◌,
  =ₛ_iff, if◌then◌else◌,
}
use pysearch.Float.{Float}
use pysearch.Document.{Document}
use pysearch.VectorIndex.{
  Vectors, VectorIndex, new_vectors, add_vector, validate_vectors, vector_for,
}
use pysearch.VectorIndex.Adding.{IsIndexed, new_vectors-IsIndexed, add_vector-Added}
use pysearch.Engine.{Config, Embedder}
use pysearch.Engine.Rebuild.{add_batch, texts_of, embed_batch, add_batches, rebuild_vectors}
use pysearch.Engine.Searching.{text_of}
use pysearch.Engine.Batches.Each.{text_at, Held, AllHeld, add_each, add_batches-each}

checked_value {ℓ} :
    {A : Type ℓ} (r : Result A) (check : A → Result (Unit {0})) (v : A)
    → and_then r (λ x. and_then (check x) (λ _. ok (some x))) ≡ ok (some v)
    → r ≡ ok v
checked_value (err e) check v h = absurd (cc h)
checked_value (ok x) check v h = elim (Result-cases (check x)) [
  | inl (passed, e) ↦ let same : ok (some x) ≡ ok (some v) = rw e at h in cc
  | inr (error, e) ↦ let failed : err error ≡ ok (some v) = rw e at h in absurd (cc failed)
]

module _ {fl : Float} {vs : Vectors fl} (documents : Dict Document) (embed : Str → vs.V) where
  -- Where the additions are accepted, each identifier has its document's vector afterwards, and
  -- the others have the vector they had.
  abbrev AllAdded : List Str → VectorIndex vs → VectorIndex vs → Type 0
  AllAdded ks vectors next =
      IsIndexed vs next
      × ((d : Str)
          → vector_for vs next d ≡ (
              if contains d ks
              then some (embed (text_at documents d))
              else vector_for vs vectors d))

  one_added :
      (key d : Str) (ks : List Str) (vectors middle : VectorIndex vs)
      → vector_for vs middle key ≡ some (embed (text_at documents key))
      → ((j : Str) → j ≢ key → vector_for vs middle j ≡ vector_for vs vectors j)
      → (if contains d ks then some (embed (text_at documents d)) else vector_for vs middle d) ≡ (
          if contains d (key ∷ ks)
          then some (embed (text_at documents d))
          else vector_for vs vectors d)
  unfolding contains
  one_added key d ks vectors middle has keeps = elim (Bool-cases (contains d ks)) [
    | inl later ↦ elim (Bool-cases (key =ₛ d)) [ inl e ↦ rw (later, e) | inr e ↦ rw (later, e) ]
    | inr only ↦ elim (Bool-cases (key =ₛ d)) [
      | inl e ↦
          let same : key ≡ d = (=ₛ_iff key d).0 e in
          rw (only, e)
            (subst (λ k. vector_for vs middle k ≡ some (embed (text_at documents k))) same has)
      | inr e ↦ rw (only, e) (keeps d (λ same. cc (e, (=ₛ_iff key d).1 (sym same))))
    ]
  ]

  add_each-AllAdded :
      (ks : List Str) (vectors next : VectorIndex vs)
      → IsIndexed vs vectors
      → add_each documents embed ks vectors ≡ ok next
      → AllAdded ks vectors next
  unfolding contains
  add_each-AllAdded [] vectors next y h =
      let same : vectors ≡ next = cc in
      (subst (IsIndexed vs) same y, λ d. ap (λ v. vector_for vs v d) (sym same))
  add_each-AllAdded (key ∷ ks) vectors next y h =
      let vector = embed (text_at documents key) in
      let (accepted, refused) = add_vector-Added vs key vector vectors y in
      elim (Bool-cases (vs.accepts vectors.dimension vector)) [
        | inr e ↦ let failed = refused e in absurd (cc failed)
        | inl e ↦
            let (middle, returned, (indexed, has, keeps)) = accepted e in
            let rest : add_each documents embed ks middle ≡ ok next =
              sym (ap (λ r. and_then r (add_each documents embed ks)) returned) ∙ h in
            let (last, found) = add_each-AllAdded ks middle next indexed rest in
            (last, λ d. found d ∙ one_added key d ks vectors middle has keeps)
      ]

  module _ (cfg : Config vs) (embedder : Embedder vs)
      (pointwise : (texts : List Str)
        → embedder.embed_documents texts ≡ some (map embed texts)) where
    abbrev ordered : List Str
    ordered = sorted str_le (keys documents)

    ordered-AllHeld : AllHeld documents ordered
    ordered-AllHeld =
        All-of_contains (Held documents) ordered
          (λ t h. member-eq-contains t documents ∙ sym (contains-sorted t (keys documents)) ∙ h)

    -- `_rebuild_vectors` without batches
    abbrev pub rebuilt_each : Result (Option (VectorIndex vs))
    rebuilt_each =
        and_then (add_each documents embed ordered (new_vectors vs embedder.dimension))
          λ vectors. and_then (validate_vectors vs vectors) (λ _. ok (some vectors))

    rebuild_vectors-rebuilt_each :
        cfg.embedder ≡ some embedder → rebuild_vectors cfg documents ≡ rebuilt_each
    unfolding rebuild_vectors
    rebuild_vectors-rebuilt_each present = rw present (
        ap
          (λ r.
            and_then r (λ vectors. and_then (validate_vectors vs vectors) (λ _. ok (some vectors))))
          (add_batches-each documents embed cfg embedder pointwise (length ordered) ordered
            (new_vectors vs embedder.dimension) (omega arith) ordered-AllHeld))

    -- The vectors of a rebuild are those of the documents.
    abbrev pub HasVectors : VectorIndex vs → Type 0
    HasVectors vectors =
        IsIndexed vs vectors
        × ((d : Str)
            → vector_for vs vectors d ≡ Option.map (λ x. embed x.text) (lookup d documents))

    rebuilt_each-HasVectors :
        (vectors : VectorIndex vs)
        → add_each documents embed ordered (new_vectors vs embedder.dimension) ≡ ok vectors
        → HasVectors vectors
    unfolding vector_for lookup new_vectors
    rebuilt_each-HasVectors vectors h =
        let (indexed, found) =
          add_each-AllAdded ordered (new_vectors vs embedder.dimension) vectors
            (new_vectors-IsIndexed vs embedder.dimension) h in
        (
          indexed,
          λ d. found d ∙ elim (Bool-cases (member d documents)) [
            | inl e ↦
                let (x, stored) = lookup_present d documents e in
                rw (contains-sorted, sym (member-eq-contains d documents), e, stored)
            | inr e ↦ rw (
              contains-sorted,
              sym (member-eq-contains d documents),
              e,
              lookup_absent d documents e,
            )
          ],
        )

    -- With an embedder that does not fail and embeds each text by itself, `_rebuild_vectors` gives
    -- what adding the vector of each document gives, in the order of their identifiers and without
    -- batches: the first error of an addition, or the error of the check of the whole, or else these
    -- vectors. In vectors that it returns, positions and identifiers agree, each of the documents
    -- has the vector that its text embeds to, and no other document has one.
    pub rebuild_vectors-HasVectors :
        cfg.embedder ≡ some embedder
        → (rebuild_vectors cfg documents ≡ rebuilt_each)
          × ((vectors : VectorIndex vs)
              → rebuild_vectors cfg documents ≡ ok (some vectors)
              → HasVectors vectors)
    rebuild_vectors-HasVectors present = (
      rebuild_vectors-rebuilt_each present,
      λ vectors h. rebuilt_each-HasVectors vectors (
          checked_value _ (validate_vectors vs) vectors
            (sym (rebuild_vectors-rebuilt_each present) ∙ h)),
    )
