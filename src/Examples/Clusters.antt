-- ===== src/Examples/Clusters.antt =====
-- The coordinator over two shards, one of which has lost its primary, run.
use pysearch.Base.{
  ℕ, suc, Bool, true, false, ◌≡◌, ◌≢◌, refl, List, [], ◌∷◌, ◌++◌, none, some, Error, ok, err, Exec,
  codes, map, length, shard_unavailable, engine_not_ready, distributed_search,
}
use pysearch.Float.{naturals, naturals-IsOrdered}
use pysearch.Results.{SearchResult, top}
use pysearch.Index.{CorpusStats}
use pysearch.Engine.{Engine, ready}
use pysearch.Engine.Query.{search, engine_corpus_stats, engine_stats, semantic_search}
use pysearch.Cluster.{
  NodeStatus, ShardClient, ShardCopies, check_positions, cluster_topology, copies_for,
}
use pysearch.Cluster.Routing.{ShardRouter, shard_router, shard_for}
use pysearch.Cluster.Coordinator.{
  Coordinator, new_coordinator, run_all, gather, merge, route_put, route_delete,
}
use pysearch.Cluster.Gathering.{gather-all, raised}
use pysearch.Cluster.Merging.{merge-top}
use pysearch.Cluster.Ownership.{Starts, writes-owner}
use pysearch.Examples.{ascii, numbers, lexical, third}
use pysearch.Examples.Engines.{serving_engine}

abbrev pub Client : Type 0
Client = ShardClient (Unit {0}) naturals ℕ

abbrev pub Copies : Type 0
Copies = ShardCopies (Unit {0}) naturals ℕ

abbrev status : Bool → NodeStatus
status up = record {
  node_id = codes "n";
  shard_id = 0;
  replica_role = codes "primary";
  state = ready;
  ready = up;
  generation = 2;
}

-- A copy in the process, and a copy that cannot be reached.
abbrev pub local_client : Engine numbers → Client
local_client e = record {
  put_document = λ document s. (ok true, s);
  delete_document = λ document_id s. (ok tt, s);
  search = λ query limit stats s. ((search lexical query limit (some stats) e).0, s);
  corpus_stats = λ terms s. ((engine_corpus_stats lexical terms e).0, s);
  semantic_search = λ vector limit identity s. ((semantic_search lexical vector limit e).0, s);
  index_stats = λ s. ((engine_stats lexical e).0, s);
  is_ready = λ s. (ok true, s);
  node_status = λ s. (ok (status true), s);
}

abbrev pub lost_client : Client
lost_client = record {
  put_document = λ document s. (err shard_unavailable, s);
  delete_document = λ document_id s. (err shard_unavailable, s);
  search = λ query limit stats s. (err shard_unavailable, s);
  corpus_stats = λ terms s. (err shard_unavailable, s);
  semantic_search = λ vector limit identity s. (err shard_unavailable, s);
  index_stats = λ s. (err shard_unavailable, s);
  is_ready = λ s. (ok false, s);
  node_status = λ s. (err shard_unavailable, s);
}

abbrev whole_shard : Copies
whole_shard = record { shard_id = 0; primary = local_client serving_engine; replicas = [] }

abbrev failed_over : Copies
failed_over = record {
  shard_id = 1;
  primary = lost_client;
  replicas = local_client serving_engine ∷ [];
}

abbrev two_shards_up : List Copies
two_shards_up = whole_shard ∷ failed_over ∷ []

abbrev pub two_router : ShardRouter
two_router = record { shard_count = 2 }

abbrev pub two_coordinator : Coordinator (Unit {0}) naturals ℕ
two_coordinator = record {
  digest = length;
  unicode = ascii;
  router = two_router;
  topology = two_shards_up;
  embedder = none;
}

two_coordinator-Starts : Starts length ascii 2 two_shards_up none two_coordinator
unfolding shard_router cluster_topology check_positions new_coordinator
two_coordinator-Starts = record { router = two_router; routes = refl; placed = refl; built = refl }

writes-owner_example :
    (copies : Copies) × (copies_for two_shards_up
        (shard_for length two_coordinator-Starts.router third.document_id)
      ≡ some copies)
    × (copies.shard_id ≡ shard_for length two_coordinator-Starts.router third.document_id)
    × (route_put two_coordinator third tt ≡ copies.primary.put_document third tt)
    × (route_delete two_coordinator third.document_id tt
        ≡ copies.primary.delete_document third.document_id tt)
writes-owner_example = writes-owner two_coordinator-Starts third tt

abbrev asks : List (Exec (Unit {0}) ℕ)
asks = (λ s. (ok 4, s)) ∷ (λ s. (err engine_not_ready, s)) ∷ []

gather-all_example :
    let (outcomes, after) = run_all asks tt in
    (length outcomes ≡ length asks)
    × ((gather asks tt).1 ≡ after)
    × ((results : List ℕ) → (gather asks tt).0 ≡ ok results → outcomes ≡ map ok results)
    × ((results : List ℕ) → outcomes ≡ map ok results → (gather asks tt).0 ≡ ok results)
    × ((error : Error)
        → (gather asks tt).0 ≡ err error
        → (raised 0 outcomes ≢ [])
          × (error ≡ distributed_search (map (λ p. p.0) (raised 0 outcomes))))
gather-all_example = gather-all asks tt

abbrev ask_stats : Client → Exec (Unit {0}) CorpusStats
ask_stats client = client.corpus_stats []

abbrev hits_at : ℕ → List (SearchResult ℕ)
hits_at score =
    record { document_id = codes "a"; score = score; text = [] }
    ∷ record { document_id = codes "b"; score = suc score; text = [] }
    ∷ []

merge-top_example :
    merge naturals (map (λ b. top naturals 1 (hits_at b)) (4 ∷ 7 ∷ [])) 1
    ≡ top naturals 1 (hits_at 4 ++ (hits_at 7 ++ []))
merge-top_example = merge-top naturals-IsOrdered 1 hits_at (4 ∷ 7 ∷ [])
