-- ===== src/Engine/Batches/Each.antt =====
-- The batches of `_rebuild_vectors` against adding one document after the other.
use pysearch.Base.{
  ℕ, zero, suc, ◌≤◌, Str, Dict, true, some, List, [], ◌∷◌, ◌++◌, ◌≡◌, refl, ap, sym, ◌∙◌, map,
  lookup, member, lookup_present, length, take, drop, take-append-drop, length-drop, All, arith,
  inl, inr, Result, Result-cases, ok, and_then,
}
use pysearch.Float.{Float}
use pysearch.Document.{Document}
use pysearch.VectorIndex.{Vectors, VectorIndex, add_vector}
use pysearch.Engine.{Config, Embedder}
use pysearch.Engine.Rebuild.{add_batch, texts_of, embed_batch, add_batches}
use pysearch.Engine.Searching.{text_of}

All-take {ℓ κ} : {A : Type ℓ} (P : A → Type κ) (n : ℕ) (xs : List A) → All P xs → All P (take n xs)
All-take P zero xs h = tt
All-take P (suc n) [] h = tt
All-take P (suc n) (x ∷ xs) h = (h.0, All-take P n xs h.1)

All-drop {ℓ κ} : {A : Type ℓ} (P : A → Type κ) (n : ℕ) (xs : List A) → All P xs → All P (drop n xs)
All-drop P zero xs h = h
All-drop P (suc n) [] h = tt
All-drop P (suc n) (x ∷ xs) h = All-drop P n xs h.1

abbrev pub text_at : Dict Document → Str → Str
text_at documents key = text_of (lookup key documents)

abbrev pub Held : Dict Document → Str → Type 0
Held documents key = member key documents ≡ true

abbrev pub AllHeld : Dict Document → List Str → Type 0
AllHeld documents ks = All (Held documents) ks

module _ {fl : Float} {vs : Vectors fl} (documents : Dict Document) (embed : Str → vs.V) where
  -- Each document's vector, added on its own.
  abbrev pub add_each : List Str → VectorIndex vs → Result (VectorIndex vs)
  add_each [] vectors = ok vectors
  add_each (key ∷ ks) vectors =
      and_then (add_vector vs key (embed (text_at documents key)) vectors) (add_each ks)

  add_each-append :
      (xs ys : List Str) (vectors : VectorIndex vs)
      → add_each (xs ++ ys) vectors ≡ and_then (add_each xs vectors) (add_each ys)
  add_each-append [] ys vectors = refl
  add_each-append (key ∷ xs) ys vectors =
      elim (Result-cases (add_vector vs key (embed (text_at documents key)) vectors)) [
        | inl (next, added) ↦ rw added (add_each-append xs ys next)
        | inr (error, failed) ↦ rw failed
      ]

  module _ (cfg : Config vs) where
    texts_of-held :
        (batch : List Str)
        → AllHeld documents batch
        → texts_of cfg documents batch ≡ ok (map (text_at documents) batch)
    unfolding texts_of
    texts_of-held [] h = refl
    texts_of-held (key ∷ batch) h =
        let (x, found) = lookup_present key documents h.0 in
        rw (texts_of, found, texts_of-held batch h.1)

    add_batch-each :
        (batch : List Str) (vectors : VectorIndex vs)
        → add_batch cfg batch (map embed (map (text_at documents) batch)) vectors
          ≡ add_each batch vectors
    unfolding add_batch
    add_batch-each [] vectors = refl
    add_batch-each (key ∷ batch) vectors =
        elim (Result-cases (add_vector vs key (embed (text_at documents key)) vectors)) [
          | inl (next, added) ↦ rw added (add_batch-each batch next)
          | inr (error, failed) ↦ rw failed
        ]

    module _ (embedder : Embedder vs)
        (pointwise : (texts : List Str)
          → embedder.embed_documents texts ≡ some (map embed texts)) where
      embed_batch-each :
          (batch : List Str) (vectors : VectorIndex vs)
          → AllHeld documents batch
          → embed_batch cfg embedder documents batch vectors ≡ add_each batch vectors
      unfolding embed_batch
      embed_batch-each batch vectors h =
          rw (texts_of-held batch h, pointwise (map (text_at documents) batch))
            (add_batch-each batch vectors)

      -- Rounds enough for the identifiers make the batches add each of them.
      pub add_batches-each :
          (rounds : ℕ) (ks : List Str) (vectors : VectorIndex vs)
          → length ks ≤ rounds
          → AllHeld documents ks
          → add_batches cfg rounds embedder documents ks vectors ≡ add_each ks vectors
      unfolding add_batches
      add_batches-each zero [] vectors enough h = refl
      add_batches-each zero (first ∷ others) vectors enough h = absurd (omega arith)
      add_batches-each (suc rounds) [] vectors enough h = refl
      add_batches-each (suc rounds) (first ∷ others) vectors enough h =
          let batch = take 64 (first ∷ others) in
          let later = drop 64 (first ∷ others) in
          let whole =
            sym (add_each-append batch later vectors)
            ∙ ap (λ l. add_each l vectors) (take-append-drop 64 (first ∷ others)) in
          rw (embed_batch-each batch vectors (All-take (Held documents) 64 (first ∷ others) h))
            (elim (Result-cases (add_each batch vectors)) [
              | inl (next, added) ↦ rw added (
                  add_batches-each rounds later next (omega (arith, length-drop 63 others))
                    (All-drop (Held documents) 64 (first ∷ others) h)
                  ∙ ap (λ r. and_then r (add_each later)) (sym added)
                  ∙ whole)
              | inr (error, failed) ↦
                  rw failed (ap (λ r. and_then r (add_each later)) (sym failed) ∙ whole)
            ])
