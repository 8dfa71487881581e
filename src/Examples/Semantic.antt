-- ===== src/Examples/Semantic.antt =====
-- Semantic searches by a cluster of two shards, one of which holds nothing, run.
use pysearch.Base.{
  ℕ, Str, some, List, [], ◌∷◌, ◌≡◌, refl, ap, sym, ◌∙◌, subst, ok, length, map, Dict, replicate,
  codes, lookup, member, contains, ◌=ₛ◌, put, remove, sorted, insert, for_each, str_lt, str_le,
  Bool-cases, inl, inr, or_else-none, arith, lift, ◌>>=◌,
}
use pysearch.Float.{naturals, naturals-IsOrdered}
use pysearch.Analysis.{analyze}
use pysearch.Document.{Document}
use pysearch.Storage.{store_documents, store_generation, attempt, attempt_with}
use pysearch.Index.{add_document}
use pysearch.Index.Validation.{validate}
use pysearch.VectorIndex.{
  VectorIndex, new_vectors, add_vector, grow_if_needed, vector_for, validate_vectors,
}
use pysearch.VectorIndex.Adding.{IsIndexed, add_vector-Added}
use pysearch.Engine.{Config, Engine, ready, new_engine}
use pysearch.Engine.Rebuild.{initialize, rebuild, rebuild_index, rebuild_vectors}
use pysearch.Engine.Batches.{rebuilt_each, HasVectors, rebuild_vectors-HasVectors}
use pysearch.Engine.Sync.{InSync}
use pysearch.Engine.Recovery.{initialize-IsSound}
use pysearch.Engine.Query.{semantic_search, embed_query}
use pysearch.Engine.Similar.{Embeds, semantic_search-ok}
use pysearch.Cluster.{SemanticIdentity}
use pysearch.Cluster.Coordinator.{
  Coordinator, QueryEmbedder, semantic_from_any_copy, distributed_semantic_search,
}
use pysearch.Cluster.Failover.{from_any_copy-first}
use pysearch.Cluster.Similar.{
  Embedded, Answers, HoldsVectors, distributed_semantic_search-HoldsVectors,
}
use pysearch.Examples.Clusters.{Client, Copies, lost_client, two_router}
use pysearch.Examples.{
  numbers, ascii, params, stored, first_id, first_text, second_id, second_text, third, rewritten,
}
use pysearch.Examples.Engines.{measuring, stored_ids-Distinct}

abbrev measured : Config numbers
measured = record { unicode = ascii; params = params; embedder = some measuring }

abbrev documents : Dict Document
documents = (first_id, rewritten) ∷ (third.document_id, third) ∷ []

measuring_pointwise : (texts : List Str) → measuring.embed_documents texts ≡ some (map length texts)
measuring_pointwise texts = refl

rebuild_vectors-HasVectors_example :
    (rebuild_vectors measured documents
      ≡ rebuilt_each documents length measured measuring measuring_pointwise)
    × ((vectors : VectorIndex numbers)
        → rebuild_vectors measured documents ≡ ok (some vectors)
        → HasVectors documents length measured measuring measuring_pointwise vectors)
rebuild_vectors-HasVectors_example =
    rebuild_vectors-HasVectors documents length measured measuring measuring_pointwise refl

abbrev whole : Engine numbers
whole = (initialize measured (new_engine measured stored)).1

whole_up : (initialize measured (new_engine measured stored)).0 ≡ ok tt
unfolding initialize rebuild rebuild_index store_documents store_generation attempt attempt_with
    add_document validate put rebuild_vectors sorted insert lookup remove member for_each contains
    ◌=ₛ◌ analyze str_lt new_vectors add_vector grow_if_needed validate_vectors str_le
whole_up = refl

abbrev index : VectorIndex numbers
index = record {
  dimension = 1;
  ids = first_id ∷ second_id ∷ [];
  positions = (first_id, 0) ∷ (second_id, 1) ∷ [];
  matrix = 16 ∷ 7 ∷ replicate 62 0;
}

whole_vectors : whole.vectors ≡ some index
unfolding initialize rebuild rebuild_index store_documents store_generation attempt attempt_with
    add_document validate put rebuild_vectors sorted insert lookup remove member for_each contains
    ◌=ₛ◌ analyze str_lt new_vectors add_vector grow_if_needed validate_vectors str_le
whole_vectors = refl

whole_cached :
    whole.documents
    ≡ (first_id, record { document_id = first_id; text = first_text })
      ∷ (second_id, record { document_id = second_id; text = second_text })
      ∷ []
unfolding initialize rebuild rebuild_index store_documents store_generation attempt attempt_with
    add_document validate put rebuild_vectors sorted insert lookup remove member for_each contains
    ◌=ₛ◌ analyze str_lt new_vectors add_vector grow_if_needed validate_vectors str_le
whole_cached = refl

whole_serves : InSync measured whole × (whole.state ≡ ready)
whole_serves =
    let (sound, served, returns) =
      initialize-IsSound measured (new_engine measured stored) stored_ids-Distinct (λ h. cc) in
    served whole_up

no_vectors-IsIndexed : IsIndexed numbers (new_vectors numbers 1)
unfolding new_vectors lookup
no_vectors-IsIndexed = record { position = λ d p h. cc; placed = λ d p h. cc; rows = omega arith }

abbrev one_added : VectorIndex numbers
one_added = record {
  dimension = 1;
  ids = first_id ∷ [];
  positions = (first_id, 0) ∷ [];
  matrix = 16 ∷ replicate 63 0;
}

first_added : add_vector numbers first_id 16 (new_vectors numbers 1) ≡ ok one_added
unfolding add_vector grow_if_needed new_vectors lookup put ◌=ₛ◌
first_added = refl

second_added : add_vector numbers second_id 7 one_added ≡ ok index
unfolding add_vector grow_if_needed lookup put ◌=ₛ◌
second_added = refl

added-IsIndexed :
    (d : Str) (v : ℕ) (before after : VectorIndex numbers)
    → IsIndexed numbers before
    → add_vector numbers d v before ≡ ok after
    → IsIndexed numbers after
added-IsIndexed d v before after y h =
    let (next, added, (indexed, ours, others)) = (add_vector-Added numbers d v before y).0 refl in
    let same : next ≡ after = let g = sym added ∙ h in cc in subst (IsIndexed numbers) same indexed

index-IsIndexed : IsIndexed numbers index
index-IsIndexed =
    added-IsIndexed second_id 7 one_added index
      (added-IsIndexed first_id 16 (new_vectors numbers 1) one_added no_vectors-IsIndexed
        first_added)
      second_added

whole-Embeds : Embeds measured whole index
unfolding vector_for lookup member
whole-Embeds = record {
  serving = rw (whole_serves.1);
  held = whole_vectors;
  indexed = index-IsIndexed;
  cached = λ d h. rw whole_cached (elim (Bool-cases (first_id =ₛ d)) [
    | inl e ↦ rw e
    | inr e ↦ elim (Bool-cases (second_id =ₛ d)) [
      | inl f ↦ rw (e, f)
      | inr f ↦ let gone = rw (vector_for, e, f) at h in absurd cc
    ]
  ]);
}

abbrev empty : Engine numbers
empty = record (new_engine measured (record { rows = []; generation = 0; faults = [] })) {
  state = ready;
}

empty-Embeds : Embeds measured empty (new_vectors numbers 1)
unfolding vector_for lookup new_vectors
empty-Embeds = record {
  serving = refl;
  held = refl;
  indexed = no_vectors-IsIndexed;
  cached = λ d h. cc;
}

abbrev identity : SemanticIdentity
identity = record {
  implementation = [];
  model_id = codes "length";
  model_revision = [];
  dimension = 1;
  normalization = [];
}

abbrev copies : Engine numbers → ℕ → Copies
copies e shard_id = record {
  shard_id = shard_id;
  primary = record lost_client {
    semantic_search = λ vector limit identity s. ((semantic_search measured vector limit e).0, s);
  };
  replicas = [];
}

copies-Answers :
    (e : Engine numbers) (vectors : VectorIndex numbers) (shard_id : ℕ)
    → Embeds measured e vectors
    → Answers (Unit {0}) measured 3 5 identity tt (copies e shard_id, e, vectors)
unfolding semantic_from_any_copy
copies-Answers e vectors shard_id y = record {
  answers =
      ((from_any_copy-first (λ (client : Client). client.semantic_search 3 5 identity) shard_id []
            tt tt refl).1
          (copies e shard_id).primary [] tt).0
        _ (ap (λ r. (r.0, tt)) (semantic_search-ok measured 3 5 e vectors y refl refl))
      ∙ ap (λ r. (r.0, tt)) (sym (semantic_search-ok measured 3 5 e vectors y refl refl));
  embeds = y;
  fits = refl;
}

abbrev embedder : QueryEmbedder ℕ
embedder = record { identity = identity; embed_query = λ text. some (length text) }

abbrev coordinator : Coordinator (Unit {0}) naturals ℕ
coordinator = record {
  digest = length;
  unicode = ascii;
  router = two_router;
  topology = copies whole 0 ∷ copies empty 1 ∷ [];
  embedder = some embedder;
}

abbrev shards : List (Embedded (Unit {0}) measured)
shards = (copies whole 0, whole, index) ∷ (copies empty 1, empty, new_vectors numbers 1) ∷ []

shards-HoldsVectors : HoldsVectors (Unit {0}) measured 3 5 identity tt shards whole index
unfolding member lookup vector_for new_vectors
shards-HoldsVectors = record {
  answering = (
    copies-Answers whole index 0 whole-Embeds,
    (copies-Answers empty (new_vectors numbers 1) 1 empty-Embeds, tt),
  );
  embeds = whole-Embeds;
  fits = refl;
  parts = record {
    serving = rw (whole_serves.1);
    in_sync = whole_serves.0;
    apart = (λ d m. refl, (λ d m. refl, tt));
    same = λ d. rw whole_cached;
  };
  alike = λ d. sym (or_else-none (vector_for numbers index d));
}

distributed_semantic_search-HoldsVectors_example :
    distributed_semantic_search coordinator (codes "fox") 5 tt ≡ (
      ((lift (embed_query measured (codes "fox")) >>= λ vector. semantic_search measured vector 5)
          whole).0,
      tt,
    )
unfolding embed_query
distributed_semantic_search-HoldsVectors_example =
    distributed_semantic_search-HoldsVectors (Unit {0}) measured naturals-IsOrdered coordinator
      (codes "fox") 3 5 embedder tt shards whole index refl refl refl refl refl shards-HoldsVectors
