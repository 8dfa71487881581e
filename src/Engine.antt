-- ===== src/Engine.antt =====
-- app/search/engine.py: the search engine. A method is an action on the engine; the lock makes each
-- of them one step. The texts of `_detail` and the timings of `RebuildReport` are left out.
pub mod Rebuild
pub mod Derived
pub mod Sync
pub mod Deleting
pub mod Replicated
pub mod Contiguous
mod Reloading
pub mod Recovery
pub mod Batches
pub mod Query
pub mod Searching
pub mod Parted
pub mod Together
pub mod Hybrid
pub mod Similar
pub mod Checks
pub mod Effects
pub mod Keeps
use mathlib.Core.Option
use pysearch.Base.{
  ℕ, zero, suc, ◌+◌, Str, Dict, Bool, true, false, not, Option, none, some, List, [], ◌∷◌, lookup,
  member, put, remove, keys, values, contains, length, take, map, sorted, str_lt, is_some,
  if◌then◌else◌, ltb, leb, ◌==◌, Error, Result, ok, err, and_then, raise_if, Exec, pure, raise,
  lift, gets, modify, ◌>>=◌, ◌>>◌, for_each, engine_not_ready, document_not_found, index_invariant,
  embedding_error, key_error, value_error, index_error,
}
use pysearch.Float.{Float}
use pysearch.Document.{Document}
use pysearch.Analysis.{Unicode, analyze}
use pysearch.Index.{InvertedIndex, empty_index, add_document, remove_document}
use pysearch.Index.Validation.{validate}
use pysearch.Ranking.{Bm25Params}
use pysearch.VectorIndex.{
  Vectors, VectorIndex, new_vectors, vector_count, add_vector, remove_vector, validate_vectors,
}
use pysearch.Storage.{
  Store, store_put, store_delete, store_replace_all, store_generation, store_documents, store_close,
}

-- NodeState
pub data NodeState : Type 0 where
  starting recovering ready degraded out_of_sync : NodeState

abbrev pub is_ready : NodeState → Bool
is_ready ready = true
is_ready _ = false

-- ReplicationOutcome
pub data Outcome : Type 0 where
  applied duplicate gap : Outcome

module _ {fl : Float} (vs : Vectors fl) where
  -- The model behind `Embedder`; `none` is its EmbeddingError.
  pub record Embedder : Type 0 where
    pub dimension : ℕ
    pub embed_documents : List Str → Option (List vs.V)
    pub embed_query : Str → Option vs.V

  -- What an engine is built with, besides its store.
  pub record Config : Type 0 where
    pub unicode : Unicode
    pub params : Bm25Params fl
    pub embedder : Option Embedder

  pub record Engine : Type 0 where
    pub store : Store
    pub index : InvertedIndex
    pub documents : Dict Document
    pub vectors : Option (VectorIndex vs)
    pub state : NodeState
    pub generation : ℕ

module _ {fl : Float} {vs : Vectors fl} (cfg : Config vs) where
  abbrev pub Act : Type 0 → Type 0
  Act A = Exec (Engine vs) A

  -- The engine's store and index as parts of the engine.
  abbrev pub with_store : {A : Type 0} → Exec Store A → Act A
  with_store m e = let (r, s) = m e.store in (r, record e { store = s })

  abbrev pub with_index : {A : Type 0} → Exec InvertedIndex A → Act A
  with_index m e = let (r, i) = m e.index in (r, record e { index = i })

  abbrev pub set_state : NodeState → Act (Unit {0})
  set_state state = modify (λ e. record e { state = state })

  abbrev pub set_generation : ℕ → Act (Unit {0})
  set_generation generation = modify (λ e. record e { generation = generation })

  -- SearchEngine(store, …)
  abbrev pub new_engine : Store → Engine vs
  new_engine store = record {
    store = store;
    index = empty_index;
    documents = [];
    vectors = Option.map (λ embedder. new_vectors vs embedder.dimension) cfg.embedder;
    state = starting;
    generation = 0;
  }

  -- _require_operational_locked
  abbrev pub require_operational : Act (Unit {0})
  require_operational e = if is_ready e.state then (ok tt, e) else (err engine_not_ready, e)

  abbrev pub first_vector : Option (List vs.V) → Result (Option vs.V)
  first_vector (some (v ∷ rest)) = ok (some v)
  first_vector (some []) = err index_error
  first_vector none = err embedding_error

  -- _embed_document: `none` where semantic search is disabled
  unfoldable pub embed_document : Str → Result (Option vs.V)
  embed_document text = elim cfg.embedder [
    | none ↦ ok none
    | some embedder ↦ first_vector (embedder.embed_documents (text ∷ []))
  ]

  -- `if self._vectors is not None`
  vectors_with : Str → vs.V → Option (VectorIndex vs) → Result (Unit {0}) × Option (VectorIndex vs)
  vectors_with document_id vector none = (ok tt, none)
  vectors_with document_id vector (some vectors) = elim (add_vector vs document_id vector vectors) [
    | ok vectors' ↦ (ok tt, some vectors')
    | err error ↦ (err error, some vectors)
  ]

  add_to_vectors : Str → vs.V → Act (Unit {0})
  unfolding vectors_with
  add_to_vectors document_id vector e =
      let (r, vectors) = vectors_with document_id vector e.vectors in
      (r, record e { vectors = vectors })

  add_vector_of : Str → Option vs.V → Act (Unit {0})
  unfolding add_to_vectors
  add_vector_of document_id none = pure tt
  add_vector_of document_id (some vector) = add_to_vectors document_id vector

  -- _apply_derived_locked
  unfoldable pub apply_derived : Document → List Str → Option vs.V → Act (Unit {0})
  unfolding add_vector_of
  apply_derived document tokens vector = do
    modify (λ e. record e { documents = put document.document_id document e.documents })
    with_index (add_document document.document_id tokens)
    add_vector_of document.document_id vector

  -- del self._documents[document_id]
  drop_document : Str → Act (Unit {0})
  drop_document document_id e =
      if member document_id e.documents
      then (ok tt, record e { documents = remove document_id e.documents })
      else (err key_error, e)

  drop_vector : Str → Act (Unit {0})
  drop_vector document_id =
      modify
        (λ e. record e { vectors = Option.map (λ v. (remove_vector vs document_id v).0) e.vectors })

  -- _remove_derived_locked
  unfoldable pub remove_derived : Str → Act (Unit {0})
  unfolding drop_document drop_vector
  remove_derived document_id = do
    drop_document document_id
    with_index (remove_document document_id)
    drop_vector document_id

  degraded_if_failed : Result (Unit {0}) × Engine vs → Result (Unit {0}) × Engine vs
  degraded_if_failed (ok _, e) = (ok tt, e)
  degraded_if_failed (err _, e) = (err engine_not_ready, record e { state = degraded })

  -- _degrade_on_failure around a block
  unfoldable pub degrade_on_failure : Act (Unit {0}) → Act (Unit {0})
  unfolding degraded_if_failed
  degrade_on_failure block e = degraded_if_failed (block e)

  abbrev pub tokens_of : Document → List Str
  tokens_of document = analyze cfg.unicode document.text

  -- index_document: True if the document is new
  unfoldable pub index_document : Document → Act Bool
  index_document document = do
    vector ← lift (embed_document document.text)
    require_operational
    next ← gets (λ e. e.generation + 1)
    created ← with_store (store_put document next)
    set_generation next
    degrade_on_failure (apply_derived document (tokens_of document) vector)
    pure created

  unfoldable pub delete_document : Str → Act (Unit {0})
  delete_document document_id = do
    require_operational
    cached ← gets (λ e. member document_id e.documents)
    lift (raise_if (not cached) document_not_found)
    next ← gets (λ e. e.generation + 1)
    with_store (store_delete document_id next)
    set_generation next
    degrade_on_failure (remove_derived document_id)

  -- _classify_generation_locked
  unfoldable pub classify_generation : ℕ → Act Outcome
  classify_generation generation e =
      if leb generation e.generation
      then (ok duplicate, e)
      else if ltb (e.generation + 1) generation
      then (ok gap, record e { state = out_of_sync })
      else (require_operational >> pure applied) e

  put_replicated : Document → ℕ → Outcome → Act Outcome
  put_replicated document generation applied = do
    vector ← lift (embed_document document.text)
    with_store (store_put document generation)
    degrade_on_failure (apply_derived document (tokens_of document) vector)
    set_generation generation
    pure applied
  put_replicated document generation outcome = pure outcome

  unfoldable pub apply_replicated_put : Document → ℕ → Act Outcome
  unfolding put_replicated
  apply_replicated_put document generation = do
    outcome ← classify_generation generation
    put_replicated document generation outcome

  remove_if_cached : Str → Act (Unit {0})
  remove_if_cached document_id e =
      if member document_id e.documents then remove_derived document_id e else (ok tt, e)

  delete_replicated : Str → ℕ → Outcome → Act Outcome
  unfolding remove_if_cached
  delete_replicated document_id generation applied = do
    with_store (store_delete document_id generation)
    degrade_on_failure (remove_if_cached document_id)
    set_generation generation
    pure applied
  delete_replicated document_id generation outcome = pure outcome

  unfoldable pub apply_replicated_delete : Str → ℕ → Act Outcome
  unfolding delete_replicated
  apply_replicated_delete document_id generation = do
    outcome ← classify_generation generation
    delete_replicated document_id generation outcome

  unfoldable pub export_snapshot : Act (List Document × ℕ)
  export_snapshot = require_operational >> gets (λ e. (values e.documents, e.generation))
