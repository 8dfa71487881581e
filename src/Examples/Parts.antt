-- ===== src/Examples/Parts.antt =====
-- Two shards with one document each, against an engine with both.
use pysearch.Base.{
  ℕ, ◌++◌, str_lt, =ₛ_iff, arith, Str, List, [], ◌∷◌, ◌≡◌, refl, none, true, false, codes, lookup,
  member, contains, ◌=ₛ◌, length, put, remove, sorted, insert, for_each,
}
use pysearch.Storage.{Store, store_documents, store_generation, attempt, attempt_with}
use pysearch.Index.{add_document}
use pysearch.Index.Validation.{validate}
use pysearch.Document.{Document}
use pysearch.Analysis.{analyze}
use pysearch.Engine.{Engine, ready, new_engine}
use pysearch.Engine.Rebuild.{initialize, rebuild, rebuild_index, rebuild_vectors}
use pysearch.Engine.Sync.{InSync}
use pysearch.Engine.Recovery.{initialize-IsSound}
use pysearch.Examples.{numbers, lexical, ascii, first_id, second_id, first_text, second_text}
use pysearch.Examples.Engines.{serving_engine, serving_engine_ready, serving_engine-InSync}
use pysearch.Examples.Clusters.{Copies, local_client, two_router}
use pysearch.Cluster.Coordinator.{Coordinator, distributed_search_for}
use pysearch.Cluster.Distributed.{Serving, Serves}
use pysearch.Cluster.Whole.{distributed_search-HoldsAll}
use pysearch.Engine.Query.{search}
use pysearch.Engine.Parted.{HoldsAll}
use pysearch.Float.{naturals, naturals-IsOrdered}

abbrev one_row : Str → Str → Store
one_row document_id text = record { rows = (document_id, text) ∷ []; generation = 1; faults = [] }

abbrev pub started : Str → Str → Engine numbers
started document_id text = (initialize lexical (new_engine lexical (one_row document_id text))).1

pub started_serves :
    (document_id text : Str)
    → InSync lexical (started document_id text) × ((started document_id text).state ≡ ready)
unfolding contains
started_serves document_id text =
    let (sound, served, returns) =
      initialize-IsSound lexical (new_engine lexical (one_row document_id text)) (refl, tt)
        (λ h. cc) in
    served (returns refl refl)

abbrev document : Str → Str → Document
document document_id text = record { document_id = document_id; text = text }

first_cached :
    (started first_id first_text).documents ≡ (first_id, document first_id first_text) ∷ []
unfolding initialize rebuild rebuild_index store_documents store_generation attempt attempt_with
    add_document validate put rebuild_vectors sorted insert lookup remove member for_each contains
    ◌=ₛ◌ analyze
first_cached = refl

second_cached :
    (started second_id second_text).documents ≡ (second_id, document second_id second_text) ∷ []
unfolding initialize rebuild rebuild_index store_documents store_generation attempt attempt_with
    add_document validate put rebuild_vectors sorted insert lookup remove member for_each contains
    ◌=ₛ◌ analyze
second_cached = refl

pub both_cached :
    serving_engine.documents
    ≡ (first_id, document first_id first_text) ∷ (second_id, document second_id second_text) ∷ []
unfolding initialize rebuild rebuild_index store_documents store_generation attempt attempt_with
    add_document validate put rebuild_vectors sorted insert lookup remove member for_each contains
    ◌=ₛ◌ analyze str_lt
both_cached = refl

other_id : (d : Str) → (first_id =ₛ d) ≡ true → (second_id =ₛ d) ≡ false
unfolding ◌=ₛ◌
other_id d h = rw (← (=ₛ_iff first_id d).0 h)

abbrev engines : List (Engine numbers)
engines = started first_id first_text ∷ started second_id second_text ∷ []

apart :
    (d : Str)
    → member d ((first_id, document first_id first_text) ∷ []) ≡ true
    → member d ((started second_id second_text).documents ++ []) ≡ false
unfolding member
apart d m = rw (second_cached, other_id d (ground arith))

pub parts : HoldsAll lexical serving_engine engines
parts = record {
  serving = serving_engine_ready;
  in_sync = serving_engine-InSync;
  apart = (λ d m. apart d (rw first_cached at m), (λ d m. unfold member in refl, tt));
  same = λ d. rw (both_cached, first_cached, second_cached);
}

abbrev pub copies : Str → Str → ℕ → Copies
copies document_id text shard_id = record {
  shard_id = shard_id;
  primary = local_client (started document_id text);
  replicas = [];
}

abbrev pub coordinator : Coordinator (Unit {0}) naturals ℕ
coordinator = record {
  digest = length;
  unicode = ascii;
  router = two_router;
  topology = copies first_id first_text 0 ∷ copies second_id second_text 1 ∷ [];
  embedder = none;
}

abbrev pub measured_shards : List (Copies × Engine numbers)
measured_shards =
    (copies first_id first_text 0, started first_id first_text)
    ∷ (copies second_id second_text 1, started second_id second_text)
    ∷ []

abbrev serving_at : Str → Str → ℕ → Serving (Unit {0}) lexical
serving_at document_id text shard_id = (
  copies document_id text shard_id,
  started document_id text,
  local_client (started document_id text),
)

abbrev pub shards : List (Serving (Unit {0}) lexical)
shards = serving_at first_id first_text 0 ∷ serving_at second_id second_text 1 ∷ []

pub serving_at-Serves :
    (document_id text : Str) (shard_id limit : ℕ)
    → Serves (Unit {0}) lexical limit (serving_at document_id text shard_id) tt
serving_at-Serves document_id text shard_id limit = record {
  before = [];
  after = [];
  order = refl;
  refuse = λ terms. tt;
  relays = record { relays_stats = λ terms. refl; relays_search = λ query stats. refl };
  serving = rw (started_serves document_id text).1;
  in_sync = (started_serves document_id text).0;
}

distributed_search-HoldsAll_example :
    distributed_search_for coordinator (codes "red fox") 5 tt
    ≡ ((search lexical (codes "red fox") 5 none serving_engine).0, tt)
distributed_search-HoldsAll_example =
    distributed_search-HoldsAll (Unit {0}) lexical naturals-IsOrdered coordinator (codes "red fox")
      5 tt shards serving_engine refl refl
      (serving_at-Serves first_id first_text 0 5, (serving_at-Serves second_id second_text 1 5, tt))
      parts
