-- ===== src/Engine/Sync.antt =====
-- A ready engine agrees with its storage: the invariant, and that the writes of a primary keep it.
use pysearch.Base.{
  ℕ, ◌+◌, Str, true, Option, none, some, ◌≡◌, refl, sym, subst, ◌∙◌, put, keys, Distinct,
  Distinct-put, inl, inr, Bool-cases, Result, Result-cases, ok, err, continue,
}
use pysearch.Float.{Float}
use pysearch.Document.{Document}
use pysearch.Index.{add_document}
use pysearch.VectorIndex.{Vectors, VectorIndex}
use pysearch.Storage.{Store}
use pysearch.Storage.Atomic.{store_put_cases}
use pysearch.Engine.{
  Config, Engine, Act, is_ready, tokens_of, vectors_with, add_to_vectors, add_vector_of,
  apply_derived, degraded_if_failed, degrade_on_failure, embed_document, index_document,
}
use pysearch.Engine.Derived.{Derived, Derived-put}

module _ {fl : Float} {vs : Vectors fl} (cfg : Config vs) where
  -- The cache and the index are what the stored rows make them, at the stored generation.
  pub record InSync (e : Engine vs) : Type 0 where
    pub derived : Derived cfg e.documents e.index e.store.rows
    pub generation : e.generation ≡ e.store.generation
    pub keyed : Distinct (keys e.store.rows)

  -- Only a ready engine serves, and a ready engine is in sync.
  abbrev pub IsSound : Engine vs → Type 0
  IsSound e = is_ready e.state ≡ true → InSync e

  -- The engine after `_apply_derived_locked`, in which only the vectors are not determined here.
  abbrev pub applied_to : Document → Option (VectorIndex vs) → Engine vs → Engine vs
  applied_to x vectors e = record e {
    documents = put x.document_id x e.documents;
    index = (add_document x.document_id (tokens_of cfg x) e.index).1;
    vectors = vectors;
  }

  abbrev pub Becomes :
      Act cfg (Unit {0}) → Engine vs → (Option (VectorIndex vs) → Engine vs) → Type 0
  Becomes m e f =
      (r : Result (Unit {0})) × (vectors : Option (VectorIndex vs)) × (m e ≡ (r, f vectors))

  add_to_vectors-Becomes :
      (d : Str) (v : vs.V) (e : Engine vs)
      → Becomes (add_to_vectors cfg d v) e (λ vectors. record e { vectors = vectors })
  unfolding add_to_vectors
  add_to_vectors-Becomes d v e =
      let (r, vectors) = vectors_with cfg d v e.vectors in (r, vectors, refl)

  add_vector_of-Becomes :
      (d : Str) (v : Option vs.V) (e : Engine vs)
      → Becomes (add_vector_of cfg d v) e (λ vectors. record e { vectors = vectors })
  unfolding add_vector_of
  add_vector_of-Becomes d none e = (ok tt, e.vectors, refl)
  add_vector_of-Becomes d (some v) e = add_to_vectors-Becomes d v e

  pub apply_derived-Becomes :
      (x : Document) (v : Option vs.V) (e : Engine vs)
      → (add_document x.document_id (tokens_of cfg x) e.index).0 ≡ ok tt
      → Becomes (apply_derived cfg x (tokens_of cfg x) v) e (λ vectors. applied_to x vectors e)
  unfolding apply_derived
  apply_derived-Becomes x v e h =
      rw h (add_vector_of-Becomes x.document_id v (applied_to x e.vectors e))

  pub InSync-store :
      (e : Engine vs) (s : Store)
      → (s.rows ≡ e.store.rows) × (s.generation ≡ e.store.generation)
      → InSync e
      → InSync (record e { store = s })
  InSync-store e s same y = record {
    derived = subst (λ rows. Derived cfg e.documents e.index rows) (sym same.0) y.derived;
    generation = y.generation ∙ sym same.1;
    keyed = subst (λ rows. Distinct (keys rows)) (sym same.0) y.keyed;
  }

  -- The engine after a committed write, before its derived state is updated.
  abbrev pub committed : Store → ℕ → Engine vs → Engine vs
  committed s generation e = record e { store = s; generation = generation }

  pub degrade-IsSound :
      (m : Act cfg (Unit {0})) (e : Engine vs) (f : Option (VectorIndex vs) → Engine vs)
      → Becomes m e f
      → ((vectors : Option (VectorIndex vs)) → InSync (f vectors))
      → IsSound (degrade_on_failure cfg m e).1
  unfolding degrade_on_failure
  degrade-IsSound m e f (ok _, vectors, p) y =
      subst (λ r. IsSound (degraded_if_failed cfg r).1) (sym p) (λ _. y vectors)
  degrade-IsSound m e f (err _, vectors, p) y =
      subst (λ r. IsSound (degraded_if_failed cfg r).1) (sym p) (λ h. cc)

  pub InSync-applied :
      (x : Document) (e : Engine vs) (s : Store) (generation : ℕ)
      → s.rows ≡ put x.document_id x.text e.store.rows
      → s.generation ≡ generation
      → InSync e
      → (vectors : Option (VectorIndex vs))
      → InSync (applied_to x vectors (committed s generation e))
  InSync-applied x e s generation rows same y vectors = record {
    derived =
        subst
          (λ l.
            Derived cfg (put x.document_id x e.documents)
              (add_document x.document_id (tokens_of cfg x) e.index).1 l)
          (sym rows) (Derived-put cfg e.documents e.index e.store.rows x y.derived).1;
    generation = sym same;
    keyed =
        subst (λ l. Distinct (keys l)) (sym rows)
          (Distinct-put x.document_id x.text e.store.rows y.keyed);
  }

  -- A pure value after an action keeps the state of the action.
  pub continue_pure {ℓ} :
      {B : Type 0} (P : Engine vs → Type ℓ) (r : Result (Unit {0})) (b : B) (e : Engine vs)
      → P e
      → P (continue r (λ _ s. (ok b, s)) e).1
  continue_pure P (ok _) b e h = h
  continue_pure P (err _) b e h = h

  index_document_when :
      (x : Document) (e : Engine vs) (v : Option vs.V)
      → embed_document cfg x.text ≡ ok v
      → is_ready e.state ≡ true
      → InSync e
      → IsSound (index_document cfg x e).1
  unfolding index_document
  index_document_when x e v embedded serving y =
      elim (store_put_cases e.store x (e.generation + 1)) [
        | inl (s, put_err, same) ↦ rw (embedded, serving, put_err) (λ _. InSync-store e s same y)
        | inr (s, put_ok, rows, generation) ↦
            let e1 = committed s (e.generation + 1) e in
            let block = apply_derived cfg x (tokens_of cfg x) v in
            let fresh = (Derived-put cfg e.documents e.index e.store.rows x y.derived).0 in
            rw (embedded, serving, put_ok)
              (continue_pure IsSound (degrade_on_failure cfg block e1).0 _ _ (
                degrade-IsSound block e1 (λ w. applied_to x w e1)
                  (apply_derived-Becomes x v e1 fresh)
                  (InSync-applied x e s (e.generation + 1) rows generation y)))
      ]

  -- If a ready engine is in sync with its storage (the cache and the index are what the stored
  -- rows make them, and the generations are equal), that is so after indexing a document too,
  -- whatever fails.
  pub index_document-IsSound :
      (x : Document) (e : Engine vs) → IsSound e → IsSound (index_document cfg x e).1
  unfolding index_document
  index_document-IsSound x e h = elim (Result-cases (embed_document cfg x.text)) [
    | inr (error, failed) ↦ rw failed h
    | inl (v, embedded) ↦ elim (Bool-cases (is_ready e.state)) [
      | inl serving ↦ index_document_when x e v embedded serving (h serving)
      | inr idle ↦ rw (embedded, idle) h
    ]
  ]
