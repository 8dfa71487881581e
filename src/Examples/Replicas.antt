-- ===== src/Examples/Replicas.antt =====
-- Healthy copies of one shard, run.
use pysearch.Base.{arith, ◌+◌, Bool, not, ◌≡◌, refl, List, [], ◌∷◌, All, map, member, put, ok}
use pysearch.Storage.{Store}
use pysearch.Engine.{Engine, ready, new_engine, index_document}
use pysearch.Engine.Derived.{Derived-empty}
use pysearch.Engine.Effects.{Healthy, Stores, index_document-Stores}
use pysearch.Cluster.Replication.{
  PrimarySource, replica_node, write_document, erase_document, synchronize,
}
use pysearch.Cluster.Ahead.{NotAhead, write_document-NotAhead}
use pysearch.Cluster.Replicas.{Agrees, write_document-acknowledged, write_document-Agrees}
use pysearch.Cluster.Synchronizing.{Checked, synchronize-Checked}
use pysearch.Examples.{numbers, lexical, third, rewritten}
use pysearch.Examples.Engines.{serving_engine, serving_engine-InSync}

abbrev empty_store : Store
empty_store = record { rows = []; generation = 0; faults = [] }

abbrev blank_engine : Engine numbers
blank_engine = record (new_engine lexical empty_store) { state = ready }

blank_engine-Healthy : Healthy lexical blank_engine
blank_engine-Healthy = record {
  in_sync = record { derived = Derived-empty lexical; generation = refl; keyed = tt };
  serving = refl;
  quiet = refl;
}

abbrev pub one_engine : Engine numbers
one_engine = (index_document lexical third blank_engine).1

pub one_engine-Healthy : Healthy lexical one_engine
one_engine-Healthy =
    (index_document-Stores lexical refl blank_engine blank_engine-Healthy third).1.2

abbrev replicas : List (Engine numbers)
replicas = one_engine ∷ one_engine ∷ []

replicas-Agrees : All (Agrees lexical one_engine) replicas
replicas-Agrees = ((refl, refl, one_engine-Healthy), ((refl, refl, one_engine-Healthy), tt))

write_document-Agrees_example :
    let (r, after) =
      write_document lexical (replica_node lexical) rewritten (one_engine, replicas) in
    (r ≡ ok (not (member rewritten.document_id one_engine.store.rows)))
    × Stores lexical one_engine after.0
        (put rewritten.document_id rewritten.text one_engine.store.rows)
        (one_engine.generation + 1)
    × All (Agrees lexical after.0) after.1
write_document-Agrees_example =
    write_document-Agrees lexical refl rewritten one_engine replicas one_engine-Healthy
      replicas-Agrees

abbrev is_new : Bool
is_new = not (member rewritten.document_id one_engine.store.rows)

written :
    (write_document lexical (replica_node lexical) rewritten (one_engine, replicas)).0 ≡ ok is_new
written =
    (write_document-Agrees lexical refl rewritten one_engine replicas one_engine-Healthy
      replicas-Agrees).0

write_document-acknowledged_example :
    let after =
      (write_document lexical (replica_node lexical) rewritten (one_engine, replicas)).1 in
    let (committed, e') = index_document lexical rewritten one_engine in
    (committed ≡ ok is_new)
    × (after.0 ≡ e')
    × All (λ t. ((replica_node lexical).apply_put rewritten e'.generation t).0 ≡ ok tt) replicas
    × (after.1 ≡ map (λ t. ((replica_node lexical).apply_put rewritten e'.generation t).1) replicas)
write_document-acknowledged_example =
    write_document-acknowledged lexical (replica_node lexical) rewritten one_engine replicas is_new
      written

abbrev ahead : PrimarySource
ahead = record { generation = ok 9; exported = ok (third ∷ [], 9) }

synchronize-Checked_example :
    Checked lexical ahead serving_engine (synchronize lexical ahead serving_engine)
synchronize-Checked_example = synchronize-Checked lexical ahead serving_engine serving_engine-InSync

not_ahead : NotAhead lexical (one_engine, replicas)
not_ahead = (omega arith, (omega arith, tt))

write_document-NotAhead_example :
    NotAhead lexical
      (write_document lexical (replica_node lexical) rewritten (one_engine, replicas)).1
    × NotAhead lexical
        (erase_document lexical (replica_node lexical) third.document_id (one_engine, replicas)).1
write_document-NotAhead_example =
    write_document-NotAhead lexical rewritten third.document_id one_engine replicas not_ahead
