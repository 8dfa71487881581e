-- ===== src/Cluster/Replication.antt =====
-- app/cluster/replication.py: the primary's write path and a replica's check of itself against its
-- primary. The HTTP link between them is a parameter: the two interfaces of a peer.
use pysearch.Base.{
  ℕ, Str, Bool, true, false, Option, none, some, List, [], ◌∷◌, if◌then◌else◌, ltb, ◌==◌, Result,
  ok, err, Exec, continue, replication_error, shard_unavailable,
}
use pysearch.Float.{Float}
use pysearch.Document.{Document}
use pysearch.VectorIndex.{Vectors}
use pysearch.Engine.{
  Config, Engine, Outcome, applied, duplicate, gap, index_document, delete_document,
  apply_replicated_put, apply_replicated_delete,
}
use pysearch.Engine.Rebuild.{mark_recovering, mark_out_of_sync, mark_ready, resynchronize}

-- ReplicationTarget, with the state of the replica that it stands for.
pub record ReplicationTarget (T : Type 0) : Type 0 where
  pub apply_put : Document → ℕ → Exec T (Unit {0})
  pub apply_delete : Str → ℕ → Exec T (Unit {0})

-- PrimarySource, with what the primary answers.
pub record PrimarySource : Type 0 where
  pub generation : Result ℕ
  pub exported : Result (List Document × ℕ)

-- SyncOutcome, without its text
pub record SyncOutcome : Type 0 where
  pub synchronized : Bool
  pub local_generation : ℕ
  pub primary_generation : Option ℕ

-- _replicate: one replica after the other, up to the first that fails.
unfoldable pub replicate_all {ℓ} : {T : Type ℓ} → Exec T (Unit {0}) → Exec (List T) (Unit {0})
replicate_all apply [] = (ok tt, [])
replicate_all apply (target ∷ targets) =
    let (r, later) = replicate_all apply targets in
    elim (apply target).0 [
      | ok _ ↦ (r, (apply target).1 ∷ later)
      | err _ ↦ (err replication_error, (apply target).1 ∷ targets)
    ]

module _ {fl : Float} {vs : Vectors fl} (cfg : Config vs) where
  -- What the endpoint of a replica makes of an outcome, and the link of its answer: a gap is
  -- answered with a conflict, and any failure raises at the primary.
  abbrev pub served : Result Outcome × Engine vs → Result (Unit {0}) × Engine vs
  served (ok gap, e) = (err shard_unavailable, e)
  served (ok applied, e) = (ok tt, e)
  served (ok duplicate, e) = (ok tt, e)
  served (err _, e) = (err shard_unavailable, e)

  -- A replica that can be reached.
  abbrev pub replica_node : ReplicationTarget (Engine vs)
  replica_node = record {
    apply_put = λ document generation e. served (apply_replicated_put cfg document generation e);
    apply_delete =
        λ document_id generation e. served (apply_replicated_delete cfg document_id generation e);
  }

  module _ {T : Type 0} (target : ReplicationTarget T) where
    -- Replicator: the primary's engine and its replicas
    abbrev pub Group : Type 0
    Group = Engine vs × List T

    -- After the primary has committed, at its generation.
    unfoldable pub replicated_after :
        {A : Type 0} → (ℕ → Exec T (Unit {0})) → Result A × Engine vs → List T → Result A × Group
    replicated_after apply (err error, e) targets = (err error, (e, targets))
    replicated_after apply (ok a, e) targets =
        let (r, targets') = replicate_all (apply e.generation) targets in
        (continue r (λ _ s. (ok a, s)) (e, targets'))

    -- Replicator.index_document
    unfoldable pub write_document : Document → Exec Group Bool
    unfolding replicated_after
    write_document document (e, targets) =
        replicated_after (λ generation. target.apply_put document generation)
          (index_document cfg document e) targets

    -- Replicator.delete_document
    unfoldable pub erase_document : Str → Exec Group (Unit {0})
    unfolding replicated_after
    erase_document document_id (e, targets) =
        replicated_after (λ generation. target.apply_delete document_id generation)
          (delete_document cfg document_id e) targets

  -- ReplicaSynchronizer. Both methods return; a failure is an outcome.
  unfoldable pub concluded_sync :
      ℕ → Option ℕ → ℕ → Result (Unit {0}) × Engine vs → SyncOutcome × Engine vs
  concluded_sync local remote generation (ok _, e) = (
    record {
      synchronized = true;
      local_generation = generation;
      primary_generation = some generation;
    },
    e,
  )
  concluded_sync local remote generation (err _, e) = (
    record { synchronized = false; local_generation = local; primary_generation = remote },
    (mark_out_of_sync cfg e).1,
  )

  -- _resynchronize, once the primary's snapshot has been asked for
  unfoldable pub pull_from :
      Result (List Document × ℕ) → ℕ → Option ℕ → Engine vs → SyncOutcome × Engine vs
  unfolding concluded_sync
  pull_from (err _) local remote e = (
    record { synchronized = false; local_generation = local; primary_generation = remote },
    (mark_out_of_sync cfg e).1,
  )
  pull_from (ok (documents, generation)) local remote e =
      concluded_sync local remote generation (resynchronize cfg documents generation e)

  abbrev pub pull_snapshot : PrimarySource → ℕ → Option ℕ → Engine vs → SyncOutcome × Engine vs
  pull_snapshot primary local remote e =
      pull_from primary.exported local remote (mark_recovering cfg e).1

  -- synchronize, once the primary's generation has been asked for
  unfoldable pub compare_with : PrimarySource → Result ℕ → Engine vs → SyncOutcome × Engine vs
  compare_with primary (err _) e = (
    record { synchronized = false; local_generation = e.generation; primary_generation = none },
    (mark_recovering cfg e).1,
  )
  compare_with primary (ok remote) e =
      if e.generation == remote
      then (
        record {
          synchronized = true;
          local_generation = e.generation;
          primary_generation = some remote;
        },
        (mark_ready cfg e).1,
      )
      else if ltb remote e.generation
      then (
        record {
          synchronized = false;
          local_generation = e.generation;
          primary_generation = some remote;
        },
        (mark_out_of_sync cfg e).1,
      )
      else pull_snapshot primary e.generation (some remote) e

  -- synchronize
  unfoldable pub synchronize : PrimarySource → Engine vs → SyncOutcome × Engine vs
  synchronize primary e = compare_with primary primary.generation (mark_recovering cfg e).1

  -- resynchronize
  unfoldable pub repair : PrimarySource → Engine vs → SyncOutcome × Engine vs
  repair primary e = pull_snapshot primary e.generation none e
