-- ===== src/Engine/Rebuild.antt =====
-- app/search/engine.py: rebuilding the derived state, the lifecycle, and resynchronization.
use pysearch.Base.{
  ℕ, zero, suc, Str, Dict, not, Option, none, some, List, [], ◌∷◌, lookup, put, keys, length,
  sorted, str_le, ◌==◌, Result, ok, err, and_then, raise_if, lift, gets, modify, ◌>>=◌, ◌>>◌,
  index_invariant, embedding_error, value_error, key_error, take, drop,
}
use pysearch.Float.{Float}
use pysearch.Document.{Document}
use pysearch.Index.{InvertedIndex, empty_index, add_document}
use pysearch.Index.Validation.{validate}
use pysearch.VectorIndex.{Vectors, VectorIndex, new_vectors, add_vector, validate_vectors}
use pysearch.Storage.{store_replace_all, store_generation, store_documents, store_close}
use pysearch.Engine.{
  Engine, NodeState, starting, recovering, ready, out_of_sync, Embedder, Config, Act, with_store,
  set_state, set_generation, tokens_of,
}

module _ {fl : Float} {vs : Vectors fl} (cfg : Config vs) where
  -- The loop of `_rebuild_locked` over the stored documents, into fresh structures.
  unfoldable pub rebuild_index :
      List Document → Dict Document → InvertedIndex → Result (Dict Document × InvertedIndex)
  rebuild_index [] documents index = ok (documents, index)
  rebuild_index (document ∷ stored) documents index =
      let (r, index') = add_document document.document_id (tokens_of cfg document) index in
      and_then r λ _. rebuild_index stored (put document.document_id document documents) index'

  -- zip(batch, embedded, strict=True), adding each pair
  unfoldable pub add_batch : List Str → List vs.V → VectorIndex vs → Result (VectorIndex vs)
  add_batch [] [] vectors = ok vectors
  add_batch (document_id ∷ batch) (vector ∷ embedded) vectors =
      and_then (add_vector vs document_id vector vectors) (add_batch batch embedded)
  add_batch _ _ vectors = err value_error

  -- [documents[key].text for key in batch]
  unfoldable pub texts_of : Dict Document → List Str → Result (List Str)
  texts_of documents [] = ok []
  texts_of documents (key ∷ batch) =
      let rest = texts_of documents batch in
      elim (lookup key documents) [
        | none ↦ err key_error
        | some document ↦ and_then rest (λ texts. ok (document.text ∷ texts))
      ]

  -- One turn of the loop over the batches.
  unfoldable pub embed_batch :
      Embedder vs → Dict Document → List Str → VectorIndex vs → Result (VectorIndex vs)
  unfolding add_batch texts_of
  embed_batch embedder documents batch vectors = and_then (texts_of documents batch) λ texts.
      elim (embedder.embed_documents texts) [
        | none ↦ err embedding_error
        | some embedded ↦ add_batch batch embedded vectors
      ]

  -- The batches of 64 identifiers; the first argument bounds their number.
  unfoldable pub add_batches :
      ℕ → Embedder vs → Dict Document → List Str → VectorIndex vs → Result (VectorIndex vs)
  unfolding embed_batch
  add_batches zero embedder documents document_ids vectors = ok vectors
  add_batches (suc rounds) embedder documents [] vectors = ok vectors
  add_batches (suc rounds) embedder documents (first ∷ others) vectors =
      and_then (embed_batch embedder documents (take 64 (first ∷ others)) vectors)
        (add_batches rounds embedder documents (drop 64 (first ∷ others)))

  -- _rebuild_vectors
  unfoldable pub rebuild_vectors : Dict Document → Result (Option (VectorIndex vs))
  unfolding add_batches
  rebuild_vectors documents = elim cfg.embedder [
    | none ↦ ok none
    | some embedder ↦
        let document_ids = sorted str_le (keys documents) in
        and_then
          (add_batches (length document_ids) embedder documents document_ids
            (new_vectors vs embedder.dimension))
          λ vectors. and_then (validate_vectors vs vectors) (λ _. ok (some vectors))
  ]

  -- _rebuild_locked: nothing is replaced unless all of it could be built.
  unfoldable pub rebuild : Act cfg (Unit {0})
  rebuild = do
    stored ← with_store cfg store_documents
    built ← lift (rebuild_index stored [] empty_index)
    lift (validate built.1)
    vectors ← lift (rebuild_vectors built.0)
    modify (λ e. record e { index = built.1; documents = built.0; vectors = vectors })
    generation ← with_store cfg store_generation
    set_generation cfg generation

  unfoldable pub initialize : Act cfg (Unit {0})
  initialize = rebuild >> set_state cfg ready

  -- close: what it returns or raises, and the state it leaves. The store ends here.
  unfoldable pub close : Engine vs → Result (Unit {0}) × NodeState
  close e = (store_close e.store, starting)

  abbrev pub mark_recovering : Act cfg (Unit {0})
  mark_recovering = set_state cfg recovering

  abbrev pub mark_out_of_sync : Act cfg (Unit {0})
  mark_out_of_sync = set_state cfg out_of_sync

  abbrev pub mark_ready : Act cfg (Unit {0})
  mark_ready = set_state cfg ready

  unfoldable pub resynchronize : List Document → ℕ → Act cfg (Unit {0})
  resynchronize documents generation = do
    set_state cfg recovering
    with_store cfg (store_replace_all documents generation)
    rebuild
    local ← gets (λ e. e.generation)
    lift (raise_if (not (local == generation)) index_invariant)
    set_state cfg ready
