-- ===== src/Engine/Recovery.antt =====
-- A rebuild makes the derived state what the stored rows say, and resynchronization what the
-- snapshot says.
use pysearch.Base.{
  ℕ, Str, Dict, not, Option, none, List, [], ◌∷◌, ◌≡◌, refl, ap, sym, subst, ◌∙◌, map, lookup, put,
  keys, Distinct, ◌==◌, inl, inr, Bool-cases, sorted, Error, Result, Result-cases, ok, err,
  continue, ◌>>=◌, ◌>>◌, gets, lift, raise_if, index_invariant, ==_iff,
}
use pysearch.Float.{Float}
use pysearch.Document.{Document}
use pysearch.Index.{InvertedIndex, empty_index}
use pysearch.Index.Validation.{validate-ok}
use pysearch.VectorIndex.{Vectors, VectorIndex}
use pysearch.Storage.{
  Store, store_documents, store_generation, attempt, attempt_with, document_of, row_le, rows_of,
}
use pysearch.Storage.Atomic.{
  SameCorpus, store_documents_cases, store_generation_cases, store_replace_all_cases,
}
use pysearch.Engine.{Config, Engine, ready, recovering, set_state}
use pysearch.Engine.Rebuild.{rebuild_index, rebuild_vectors, rebuild, initialize, resynchronize}
use pysearch.Engine.Derived.{Derived, Derived-empty, Derived-put}
use pysearch.Engine.Sync.{InSync, IsSound, InSync-store}
use pysearch.Engine.Reloading.{put_all, lookup-reloaded}

module _ {fl : Float} {vs : Vectors fl} (cfg : Config vs) where
  Derived-rows :
      (documents : Dict Document) (index : InvertedIndex) (rows rows' : Dict Str)
      → ((d : Str) → lookup d rows' ≡ lookup d rows)
      → Derived cfg documents index rows
      → Derived cfg documents index rows'
  Derived-rows documents index rows rows' same v = record {
    corpus = v.corpus;
    indexed = v.indexed;
    analyzed = v.analyzed;
    stored = λ d. same d ∙ v.stored d;
    named = v.named;
  }

  record Built (stored : List Document) (documents : Dict Document) (index : InvertedIndex)
      (rows : Dict Str) : Type 0 where
    documents' : Dict Document
    index' : InvertedIndex
    returns : rebuild_index cfg stored documents index ≡ ok (documents', index')
    derived : Derived cfg documents' index' (put_all stored rows)

  rebuild_index-Built :
      (stored : List Document) (documents : Dict Document) (index : InvertedIndex) (rows : Dict Str)
      → Derived cfg documents index rows
      → Built stored documents index rows
  unfolding rebuild_index put_all
  rebuild_index-Built [] documents index rows v = record {
    documents' = documents;
    index' = index;
    returns = refl;
    derived = v;
  }
  rebuild_index-Built (x ∷ stored) documents index rows v =
      let added = Derived-put cfg documents index rows x v in
      let rest = rebuild_index-Built stored (put x.document_id x documents) _ _ added.1 in
      record {
        documents' = rest.documents';
        index' = rest.index';
        returns = rw added.0 rest.returns;
        derived = rest.derived;
      }

  -- What a rebuild leaves: the state is as before, the corpus too, and a rebuild that returns is
  -- in sync. One that raises leaves an engine that was in sync in sync.
  pub record Rebuilt (e : Engine vs) (r : Result (Unit {0}) × Engine vs) : Type 0 where
    pub state : r.1.state ≡ e.state
    pub corpus : SameCorpus r.1.store e.store
    pub synced : r.0 ≡ ok tt → InSync cfg r.1
    pub kept : InSync cfg e → InSync cfg r.1

  failed_same :
      (e : Engine vs) (s : Store) (error : Error)
      → SameCorpus s e.store
      → Rebuilt e (err error, record e { store = s })
  failed_same e s error same = record {
    state = refl;
    corpus = same;
    synced = λ h. cc;
    kept = InSync-store cfg e s same;
  }

  -- The engine once the fresh structures are in place.
  abbrev swapped :
      Engine vs → Store → InvertedIndex → Dict Document → Option (VectorIndex vs) → Engine vs
  swapped e s index documents vectors = record e {
    store = s;
    index = index;
    documents = documents;
    vectors = vectors;
  }

  rebuild-Rebuilt : (e : Engine vs) → Distinct (keys e.store.rows) → Rebuilt e (rebuild cfg e)
  unfolding rebuild
  rebuild-Rebuilt e u = elim (store_documents_cases e.store) [
    | inl (s, failed, same) ↦ rw failed (failed_same e s _ same)
    | inr (s, read, rows, generation) ↦
        let stored = map document_of (sorted row_le e.store.rows) in
        let built = rebuild_index-Built stored [] empty_index [] (Derived-empty cfg) in
        let valid = validate-ok built.index' built.derived.corpus built.derived.indexed in
        let derived = λ (t : Store) (h : t.rows ≡ e.store.rows).
          Derived-rows built.documents' built.index' _ t.rows
            (λ d. ap (lookup d) h ∙ sym (lookup-reloaded d e.store.rows u)) built.derived in
        let keyed =
          λ (t : Store) (h : t.rows ≡ e.store.rows). subst (λ l. Distinct (keys l)) (sym h) u in
        elim (Result-cases (rebuild_vectors cfg built.documents')) [
          | inr (error, failed) ↦
              rw (read, built.returns, valid, failed) (failed_same e s error (rows, generation))
          | inl (vectors, rebuilt) ↦ elim (store_generation_cases s) [
            | inl (t, failed, same) ↦
                rw (read, built.returns, valid, rebuilt, failed)
                  (record {
                    state = refl;
                    corpus = (same.0 ∙ rows, same.1 ∙ generation);
                    synced = λ h. cc;
                    kept = λ y. record {
                      derived = derived t (same.0 ∙ rows);
                      generation = y.generation ∙ sym (same.1 ∙ generation);
                      keyed = keyed t (same.0 ∙ rows);
                    };
                  })
            | inr (t, got, same_rows, same_generation) ↦
                let synced : InSync cfg
                    (record (swapped e t built.index' built.documents' vectors) {
                      generation = s.generation;
                    }) =
                  record {
                    derived = derived t (same_rows ∙ rows);
                    generation = sym same_generation;
                    keyed = keyed t (same_rows ∙ rows);
                  } in
                rw (read, built.returns, valid, rebuilt, got)
                  (record {
                    state = refl;
                    corpus = (same_rows ∙ rows, same_generation ∙ generation);
                    synced = λ h. synced;
                    kept = λ h. synced;
                  })
          ]
        ]
  ]

  -- Storage that answers is all that a rebuild without an embedding model needs.
  rebuild_returns :
      (e : Engine vs) → cfg.embedder ≡ none → e.store.faults ≡ [] → (rebuild cfg e).0 ≡ ok tt
  unfolding rebuild rebuild_vectors store_documents store_generation attempt attempt_with
  rebuild_returns e disabled quiet =
      let stored = map document_of (sorted row_le e.store.rows) in
      let built = rebuild_index-Built stored [] empty_index [] (Derived-empty cfg) in
      let valid = validate-ok built.index' built.derived.corpus built.derived.indexed in
      rw (quiet, built.returns, valid, disabled)

  -- What `initialize` promises on its result.
  initialized :
      (e e' : Engine vs) (r : Result (Unit {0}))
      → IsSound cfg e
      → Rebuilt e (r, e')
      → let (r', e'') = continue {0, 0, 0} r (λ _ s. (ok tt, record s { state = ready })) e' in
        IsSound cfg e'' × (r' ≡ ok tt → InSync cfg e'' × (e''.state ≡ ready))
  initialized e e' (ok tt) h b =
      let y = b.synced refl in
      let y' : InSync cfg (record e' { state = ready }) = record {
        derived = y.derived;
        generation = y.generation;
        keyed = y.keyed;
      } in
      (λ _. y', λ _. (y', refl))
  initialized e e' (err error) h b = (λ serving. b.kept (h (rw b.state at serving)), λ g. cc)

  -- Over rows with different identifiers, and where the engine was in sync if it was ready: after
  -- initializing, whatever fails, a ready engine is in sync with its storage. Where the call
  -- returns, the engine is ready and in sync. It returns where there is no embedding model and
  -- the storage answers.
  pub initialize-IsSound :
      (e : Engine vs)
      → Distinct (keys e.store.rows)
      → IsSound cfg e
      → let (r, e') = initialize cfg e in
        IsSound cfg e'
        × (r ≡ ok tt → InSync cfg e' × (e'.state ≡ ready))
        × (cfg.embedder ≡ none → e.store.faults ≡ [] → r ≡ ok tt)
  unfolding initialize
  initialize-IsSound e u h =
      let (sound, served) = initialized e _ _ h (rebuild-Rebuilt e u) in
      (sound, served, λ disabled quiet. rw (rebuild_returns e disabled quiet))

  resynchronized :
      (generation : ℕ) (rows : Dict Str) (e e' : Engine vs) (r : Result (Unit {0}))
      → e.state ≡ recovering
      → e.store.rows ≡ rows
      → Rebuilt e (r, e')
      → let (r', e'') =
          continue {0, 0, 0} r
            (λ _. do
              local ← gets (λ s. s.generation)
              lift (raise_if (not (local == generation)) index_invariant)
              set_state cfg ready)
            e' in
        IsSound cfg e''
        × (r' ≡ ok tt
            → InSync cfg e''
              × (e''.state ≡ ready)
              × (e''.generation ≡ generation)
              × (e''.store.rows ≡ rows))
  resynchronized generation rows e e' (err error) s p b = (λ serving. cc (b.state), λ g. cc)
  resynchronized generation rows e e' (ok tt) s p b =
      elim (Bool-cases (e'.generation == generation)) [
        | inr other ↦ rw other (λ serving. cc (b.state), λ g. cc)
        | inl same ↦
            let y = b.synced refl in
            let y' : InSync cfg (record e' { state = ready }) = record {
              derived = y.derived;
              generation = y.generation;
              keyed = y.keyed;
            } in
            rw same (λ _. y', λ _. (y', refl, (==_iff _ _).0 same, b.corpus.0 ∙ p))
      ]

  -- After a resynchronization, whatever fails in it, an engine that is ready is in sync with its
  -- storage. Where it returns, the engine is ready, in sync, and at the given generation, and the
  -- stored rows are exactly the documents of the snapshot.
  pub resynchronize-IsSound :
      (documents : List Document) (generation : ℕ) (e : Engine vs)
      → let (r, e') = resynchronize cfg documents generation e in
        IsSound cfg e'
        × (r ≡ ok tt
            → InSync cfg e'
              × (e'.state ≡ ready)
              × (e'.generation ≡ generation)
              × (e'.store.rows ≡ rows_of documents))
  unfolding resynchronize
  resynchronize-IsSound documents generation e =
      elim (store_replace_all_cases e.store documents generation) [
        | inl (s, failed, same) ↦ rw failed (λ serving. cc, λ g. cc)
        | inr (s, stored, rows, at, keyed) ↦
            let e1 = record e { state = recovering; store = s } in
            rw stored (
              resynchronized generation (rows_of documents) e1 _ _ refl rows
                (rebuild-Rebuilt e1 keyed))
      ]
