-- ===== src/Engine/Effects.antt =====
-- What a write does on a ready engine whose storage answers and which has no embedding model: it
-- returns, it is stored, and the engine goes on serving.
use pysearch.Base.{
  ℕ, ◌+◌, Str, Dict, true, false, not, none, [], ◌≡◌, refl, ap, sym, ◌∙◌, lookup, member, put,
  remove, arith, ok, err, ltb, leb, document_not_found, is_some, is_some-map, member-eq-is_some,
}
use pysearch.Float.{Float}
use pysearch.Document.{Document}
use mathlib.Core.Option
use pysearch.VectorIndex.{Vectors, remove_vector}
use pysearch.Storage.{Store, attempt, attempt_with, store_put, store_delete}
use pysearch.Engine.{
  Config, Engine, applied, is_ready, embed_document, add_vector_of, apply_derived,
  degraded_if_failed, degrade_on_failure, drop_document, drop_vector, remove_derived,
  index_document, delete_document, classify_generation, put_replicated, apply_replicated_put,
}
use pysearch.Engine.Derived.{Derived-put, Derived-remove}
use pysearch.Engine.Sync.{InSync, InSync-applied, applied_to, committed}
use pysearch.Engine.Deleting.{removed_from, InSync-removed}

store_put_quiet :
    (x : Document) (generation : ℕ) (s : Store)
    → s.faults ≡ []
    → store_put x generation s ≡ (
      ok (not (member x.document_id s.rows)),
      record s { rows = put x.document_id x.text s.rows; generation = generation },
    )
unfolding store_put attempt attempt_with
store_put_quiet x generation s quiet = rw quiet

store_delete_quiet :
    (d : Str) (generation : ℕ) (s : Store)
    → s.faults ≡ []
    → store_delete d generation s
      ≡ (ok (member d s.rows), record s { rows = remove d s.rows; generation = generation })
unfolding store_delete attempt attempt_with
store_delete_quiet d generation s quiet = rw quiet

module _ {fl : Float} {vs : Vectors fl} (cfg : Config vs) where
  -- A ready engine in sync over a database that answers, without an embedding model.
  pub record Healthy (e : Engine vs) : Type 0 where
    pub in_sync : InSync cfg e
    pub serving : is_ready e.state ≡ true
    pub quiet : e.store.faults ≡ []

  abbrev pub Stores : Engine vs → Engine vs → Dict Str → ℕ → Type 0
  Stores e e' rows generation = (e'.store.rows ≡ rows) × (e'.generation ≡ generation) × Healthy e'

  module _ (disabled : cfg.embedder ≡ none) (e : Engine vs) (v : Healthy e) where
    -- The store after a write.
    abbrev quiet_put : Document → ℕ → Store
    quiet_put x generation = record e.store {
      rows = put x.document_id x.text e.store.rows;
      generation = generation;
    }

    abbrev quiet_delete : Str → ℕ → Store
    quiet_delete d generation = record e.store {
      rows = remove d e.store.rows;
      generation = generation;
    }

    index_document_quiet :
        (x : Document)
        → index_document cfg x e ≡ (
          ok (not (member x.document_id e.store.rows)),
          applied_to cfg x e.vectors
              (committed cfg (quiet_put x (e.generation + 1)) (e.generation + 1) e),
        )
    unfolding index_document embed_document apply_derived degrade_on_failure degraded_if_failed
        add_vector_of
    index_document_quiet x =
        let fresh = (Derived-put cfg e.documents e.index e.store.rows x v.in_sync.derived).0 in
        let stored = store_put_quiet x (e.generation + 1) e.store v.quiet in
        rw (disabled, v.serving, stored, fresh)

    -- On a healthy engine (ready, in sync, over storage that answers) without an embedding model,
    -- indexing a document returns whether it is new, stores exactly its row, counts one
    -- generation, and leaves the engine healthy.
    pub index_document-Stores :
        (x : Document)
        → let (r, e') = index_document cfg x e in
          (r ≡ ok (not (member x.document_id e.store.rows)))
          × Stores e e' (put x.document_id x.text e.store.rows) (e.generation + 1)
    index_document-Stores x = rw (index_document_quiet x) (
      refl,
      (
        refl,
        refl,
        record {
          in_sync =
              InSync-applied cfg x e (quiet_put x (e.generation + 1)) (e.generation + 1) refl refl
                v.in_sync e.vectors;
          serving = v.serving;
          quiet = v.quiet;
        },
      ),
    )

    delete_document_quiet :
        (d : Str)
        → member d e.documents ≡ true
        → delete_document cfg d e ≡ (
          ok tt,
          removed_from cfg d
              (Option.map (λ w. (remove_vector vs d w).0) e.vectors)
              (committed cfg (quiet_delete d (e.generation + 1)) (e.generation + 1) e),
        )
    unfolding delete_document remove_derived drop_document drop_vector degrade_on_failure
        degraded_if_failed
    delete_document_quiet d m =
        let known = (Derived-remove cfg e.documents e.index e.store.rows d v.in_sync.derived m).0 in
        let stored = store_delete_quiet d (e.generation + 1) e.store v.quiet in
        rw (v.serving, m, stored, m, known)

    -- On a healthy engine without an embedding model, deleting a stored document returns, removes
    -- exactly its row, counts one generation, and leaves the engine healthy. Deleting any other
    -- raises DocumentNotFoundError and changes nothing.
    pub delete_document-Stores :
        (d : Str)
        → let (r, e') = delete_document cfg d e in
          (member d e.store.rows ≡ true
            → (r ≡ ok tt) × Stores e e' (remove d e.store.rows) (e.generation + 1))
          × (member d e.store.rows ≡ false → (r ≡ err document_not_found) × (e' ≡ e))
    delete_document-Stores d = (present, absent)
      where
        cached : member d e.documents ≡ member d e.store.rows
        cached =
            member-eq-is_some d e.documents
            ∙ sym (is_some-map (λ x. x.text) (lookup d e.documents))
            ∙ sym (ap is_some (v.in_sync.derived.stored d))
            ∙ sym (member-eq-is_some d e.store.rows)

        present :
            member d e.store.rows ≡ true
            → let (r, e') = delete_document cfg d e in
              (r ≡ ok tt) × Stores e e' (remove d e.store.rows) (e.generation + 1)
        present m = rw (delete_document_quiet d (cached ∙ m)) (
          refl,
          (
            refl,
            refl,
            record {
              in_sync =
                  InSync-removed cfg d e (quiet_delete d (e.generation + 1)) (e.generation + 1)
                    (cached ∙ m) refl refl v.in_sync _;
              serving = v.serving;
              quiet = v.quiet;
            },
          ),
        )

        absent :
            member d e.store.rows ≡ false
            → let (r, e') = delete_document cfg d e in (r ≡ err document_not_found) × (e' ≡ e)
        absent m = unfold delete_document in rw (v.serving, cached ∙ m) (refl, refl)

    apply_replicated_put_quiet :
        (x : Document)
        → apply_replicated_put cfg x (e.generation + 1) e ≡ (
          ok applied,
          record (applied_to cfg x e.vectors
              (record e { store = quiet_put x (e.generation + 1) })) {
                generation = e.generation + 1;
              },
        )
    unfolding apply_replicated_put classify_generation put_replicated embed_document apply_derived
        degrade_on_failure degraded_if_failed add_vector_of
    apply_replicated_put_quiet x =
        let fresh = (Derived-put cfg e.documents e.index e.store.rows x v.in_sync.derived).0 in
        let stored = store_put_quiet x (e.generation + 1) e.store v.quiet in
        let new : leb (e.generation + 1) e.generation ≡ false = ground arith in
        let next : ltb (e.generation + 1) (e.generation + 1) ≡ false = ground arith in
        rw (new, next, v.serving, disabled, stored, fresh)

    -- On a healthy engine without an embedding model, a replicated write with the next generation
    -- is reported as applied, stores exactly its row, advances the generation to that one, and
    -- leaves the engine healthy.
    pub apply_replicated_put-Stores :
        (x : Document)
        → let (r, e') = apply_replicated_put cfg x (e.generation + 1) e in
          (r ≡ ok applied) × Stores e e' (put x.document_id x.text e.store.rows) (e.generation + 1)
    apply_replicated_put-Stores x = rw (apply_replicated_put_quiet x) (
      refl,
      (
        refl,
        refl,
        record {
          in_sync =
              InSync-applied cfg x e (quiet_put x (e.generation + 1)) (e.generation + 1) refl refl
                v.in_sync e.vectors;
          serving = v.serving;
          quiet = v.quiet;
        },
      ),
    )
