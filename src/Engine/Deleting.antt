-- ===== src/Engine/Deleting.antt =====
-- Deleting a document keeps the invariant, and says what is deleted.
use pysearch.Base.{
  ℕ, ◌+◌, Str, true, Option, ◌≡◌, sym, subst, member, remove, keys, Distinct, Distinct-remove, inl,
  inr, Bool-cases, ok,
}
use mathlib.Core.Option
use pysearch.Float.{Float}
use pysearch.Index.{remove_document}
use pysearch.VectorIndex.{Vectors, VectorIndex, remove_vector}
use pysearch.Storage.{Store}
use pysearch.Storage.Atomic.{store_delete_cases}
use pysearch.Engine.{
  Config, Engine, is_ready, drop_document, drop_vector, remove_derived, delete_document,
}
use pysearch.Engine.Derived.{Derived, Derived-remove}
use pysearch.Engine.Sync.{InSync, IsSound, Becomes, committed, InSync-store, degrade-IsSound}

module _ {fl : Float} {vs : Vectors fl} (cfg : Config vs) where
  abbrev pub removed_from : Str → Option (VectorIndex vs) → Engine vs → Engine vs
  removed_from d vectors e = record e {
    documents = remove d e.documents;
    index = (remove_document d e.index).1;
    vectors = vectors;
  }

  pub remove_derived-Becomes :
      (d : Str) (e : Engine vs)
      → member d e.documents ≡ true
      → (remove_document d e.index).0 ≡ ok tt
      → Becomes cfg (remove_derived cfg d) e (λ vectors. removed_from d vectors e)
  unfolding remove_derived drop_document drop_vector
  remove_derived-Becomes d e m h =
      (ok tt, Option.map (λ v. (remove_vector vs d v).0) e.vectors, rw m (rw h))

  pub InSync-removed :
      (d : Str) (e : Engine vs) (s : Store) (generation : ℕ)
      → member d e.documents ≡ true
      → s.rows ≡ remove d e.store.rows
      → s.generation ≡ generation
      → InSync cfg e
      → (vectors : Option (VectorIndex vs))
      → InSync cfg (removed_from d vectors (committed cfg s generation e))
  InSync-removed d e s generation m rows same y vectors = record {
    derived =
        subst (λ l. Derived cfg (remove d e.documents) (remove_document d e.index).1 l) (sym rows)
          (Derived-remove cfg e.documents e.index e.store.rows d y.derived m).1;
    generation = sym same;
    keyed = subst (λ l. Distinct (keys l)) (sym rows) (Distinct-remove d e.store.rows y.keyed);
  }

  delete_document_when :
      (d : Str) (e : Engine vs)
      → is_ready e.state ≡ true
      → member d e.documents ≡ true
      → InSync cfg e
      → IsSound cfg (delete_document cfg d e).1
  unfolding delete_document
  delete_document_when d e serving m y = elim (store_delete_cases e.store d (e.generation + 1)) [
    | inl (s, failed, same) ↦ rw (serving, m, failed) (λ _. InSync-store cfg e s same y)
    | inr (s, done, rows, generation) ↦
        let e1 = committed cfg s (e.generation + 1) e in
        let known = (Derived-remove cfg e.documents e.index e.store.rows d y.derived m).0 in
        rw (serving, m, done)
          (degrade-IsSound cfg (remove_derived cfg d) e1 (λ w. removed_from d w e1)
            (remove_derived-Becomes d e1 m known)
            (InSync-removed d e s (e.generation + 1) m rows generation y))
  ]

  -- If a ready engine is in sync with its storage, that is so after deleting a document too,
  -- whatever fails.
  pub delete_document-IsSound :
      (d : Str) (e : Engine vs) → IsSound cfg e → IsSound cfg (delete_document cfg d e).1
  unfolding delete_document
  delete_document-IsSound d e h = elim (Bool-cases (is_ready e.state)) [
    | inr idle ↦ rw idle h
    | inl serving ↦ elim (Bool-cases (member d e.documents)) [
      | inl m ↦ delete_document_when d e serving m (h serving)
      | inr m ↦ rw (serving, m) h
    ]
  ]
