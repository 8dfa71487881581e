-- ===== src/Examples/Engines.antt =====
-- An engine over two stored documents, run.
use pysearch.Base.{
  map, length, some, true, ◌≡◌, refl, [], ◌∷◌, none, ok, codes, keys, contains, ◌=ₛ◌, Distinct, ◌+◌,
  ◌≤◌, ◌<◌,
}
use pysearch.Float.{naturals}
use pysearch.Analysis.{analyze}
use pysearch.Results.{top}
use pysearch.Storage.{rows_of}
use pysearch.Engine.{
  Embedder, Engine, ready, out_of_sync, duplicate, gap, is_ready, new_engine, index_document,
  delete_document, apply_replicated_put, apply_replicated_delete,
}
use pysearch.Engine.Rebuild.{initialize, resynchronize}
use pysearch.Engine.Sync.{InSync, IsSound, index_document-IsSound}
use pysearch.Engine.Deleting.{delete_document-IsSound}
use pysearch.Engine.Replicated.{apply_replicated_put-IsSound, apply_replicated_delete-IsSound}
use pysearch.Engine.Contiguous.{AppliedNext, apply_replicated_put_contiguous}
use pysearch.Engine.Recovery.{initialize-IsSound, resynchronize-IsSound}
use pysearch.Engine.Query.{search}
use pysearch.Engine.Searching.{hits_of, search-ok}
use pysearch.Examples.{numbers, lexical, first_id, second_id, third, rewritten, stored}

abbrev pub fresh_engine : Engine numbers
fresh_engine = new_engine lexical stored

fresh_engine-IsSound : IsSound lexical fresh_engine
fresh_engine-IsSound h = cc

pub stored_ids-Distinct : Distinct (keys stored.rows)
unfolding contains ◌=ₛ◌
stored_ids-Distinct = (refl, (refl, tt))

abbrev pub serving_engine : Engine numbers
serving_engine = (initialize lexical fresh_engine).1

initialize-IsSound_example :
    IsSound lexical serving_engine
    × ((initialize lexical fresh_engine).0 ≡ ok tt
        → InSync lexical serving_engine × (serving_engine.state ≡ ready))
    × (lexical.embedder ≡ none
        → fresh_engine.store.faults ≡ []
        → (initialize lexical fresh_engine).0 ≡ ok tt)
initialize-IsSound_example =
    initialize-IsSound lexical fresh_engine stored_ids-Distinct fresh_engine-IsSound

serves : InSync lexical serving_engine × (serving_engine.state ≡ ready)
serves =
    let (sound, served, returns) =
      initialize-IsSound lexical fresh_engine stored_ids-Distinct fresh_engine-IsSound in
    served (returns refl refl)

pub serving_engine-IsSound : IsSound lexical serving_engine
serving_engine-IsSound h = serves.0

pub serving_engine-InSync : InSync lexical serving_engine
serving_engine-InSync = serves.0

pub serving_engine_ready : is_ready serving_engine.state ≡ true
serving_engine_ready = rw (serves.1)

resynchronize-IsSound_example :
    IsSound lexical (resynchronize lexical (third ∷ []) 9 serving_engine).1
    × ((resynchronize lexical (third ∷ []) 9 serving_engine).0 ≡ ok tt
        → InSync lexical (resynchronize lexical (third ∷ []) 9 serving_engine).1
          × ((resynchronize lexical (third ∷ []) 9 serving_engine).1.state ≡ ready)
          × ((resynchronize lexical (third ∷ []) 9 serving_engine).1.generation ≡ 9)
          × ((resynchronize lexical (third ∷ []) 9 serving_engine).1.store.rows
              ≡ rows_of (third ∷ [])))
resynchronize-IsSound_example = resynchronize-IsSound lexical (third ∷ []) 9 serving_engine

index_document-IsSound_example : IsSound lexical (index_document lexical rewritten serving_engine).1
index_document-IsSound_example =
    index_document-IsSound lexical rewritten serving_engine serving_engine-IsSound

delete_document-IsSound_example :
    IsSound lexical (delete_document lexical first_id serving_engine).1
delete_document-IsSound_example =
    delete_document-IsSound lexical first_id serving_engine serving_engine-IsSound

apply_replicated_put-IsSound_example :
    IsSound lexical (apply_replicated_put lexical third 3 serving_engine).1
apply_replicated_put-IsSound_example =
    apply_replicated_put-IsSound lexical third 3 serving_engine serving_engine-IsSound

apply_replicated_delete-IsSound_example :
    IsSound lexical (apply_replicated_delete lexical second_id 3 serving_engine).1
apply_replicated_delete-IsSound_example =
    apply_replicated_delete-IsSound lexical second_id 3 serving_engine serving_engine-IsSound

apply_replicated_put_contiguous_example :
    (3 ≤ serving_engine.generation
      → apply_replicated_put lexical third 3 serving_engine ≡ (ok duplicate, serving_engine))
    × (serving_engine.generation + 1 < 3
        → apply_replicated_put lexical third 3 serving_engine
          ≡ (ok gap, record serving_engine { state = out_of_sync }))
    × AppliedNext lexical 3 serving_engine (apply_replicated_put lexical third 3 serving_engine)
apply_replicated_put_contiguous_example =
    apply_replicated_put_contiguous lexical third 3 serving_engine

search-ok_example : search lexical (codes "red fox") 1 none serving_engine ≡ (
  ok (
      top naturals 1
        (hits_of lexical serving_engine (analyze lexical.unicode (codes "red fox")) none)),
  serving_engine,
)
search-ok_example =
    search-ok lexical serving_engine (codes "red fox") 1 none serving_engine_ready
      serving_engine-InSync

-- A model that measures texts.
abbrev pub measuring : Embedder numbers
measuring = record {
  dimension = 1;
  embed_documents = λ texts. some (map length texts);
  embed_query = λ text. some (length text);
}
