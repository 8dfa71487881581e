-- ===== src/Examples/Wires.antt =====
-- Nodes behind an HTTP library that delivers every request to one application.
use pysearch.Base.{ℕ, Bool, ◌==◌, [], ◌∷◌, ◌≡◌, refl, none, some, ok, codes}
use pysearch.Document.{is_blank}
use pysearch.Float.{naturals}
use pysearch.Index.{CorpusStats}
use pysearch.Engine.{Engine, is_ready}
use pysearch.Engine.Query.{search, engine_corpus_stats, engine_stats}
use pysearch.Cluster.Replication.{
  ReplicationTarget, PrimarySource, write_document, erase_document, replica_node,
}
use pysearch.Http.{put_document_request}
use pysearch.Http.Internal.{Duty, Node, primary_of, replica_of, serve, status_of}
use pysearch.Http.Client.{Transport, answered, http_client, replica_link}
use pysearch.Http.Relaying.{Delivers, relayed, relayed_delete}
use pysearch.Http.Reading.{http_client_reads}
use pysearch.Http.Writing.{http_client_writes, written}
use pysearch.Http.Links.{replica_link-replica_node}
use pysearch.Http.Guards.{serve-Refuses, Refuses}
use pysearch.Examples.{numbers, lexical, third}
use pysearch.Examples.Engines.{serving_engine}

abbrev pub Nodes : Type 0
Nodes = Node numbers (Engine numbers)

abbrev pub is_blank_character : ℕ → Bool
is_blank_character c = c == 32

abbrev pub target : ReplicationTarget (Engine numbers)
target = replica_node lexical

abbrev pub direct : Transport Nodes naturals ℕ
direct asked node = (
  answered (serve lexical is_blank_character target asked node).0,
  (serve lexical is_blank_character target asked node).1,
)

pub direct-Delivers :
    Delivers lexical is_blank_character target direct (λ node. node) (λ node old. node)
direct-Delivers = record { delivers = λ asked s safe. refl; unchanged = λ s. refl }

abbrev pub node_with : Duty (Engine numbers) → Engine numbers → Nodes
node_with duty engine = record {
  node_id = codes "node";
  shard_id = 0;
  replica_role = codes "role";
  semantic_identity = none;
  engine = engine;
  duty = duty;
}

abbrev primary_node : Nodes
primary_node = node_with (primary_of (serving_engine ∷ [])) serving_engine

abbrev source : PrimarySource
source = record { generation = ok 2; exported = ok ([], 2) }

abbrev replica : Nodes
replica = node_with (replica_of source) serving_engine

abbrev stats : CorpusStats
stats = record { document_count = 2; total_document_length = 6; document_frequencies = [] }

http_client_reads_example :
    ((http_client direct).search (codes "fox") 10 stats primary_node
      ≡ (relayed (search lexical (codes "fox") 10 (some stats) serving_engine).0, primary_node))
    × ((http_client direct).corpus_stats (codes "fox" ∷ []) primary_node
        ≡ (relayed (engine_corpus_stats lexical (codes "fox" ∷ []) serving_engine).0, primary_node))
    × ((http_client direct).index_stats primary_node
        ≡ (relayed (engine_stats lexical serving_engine).0, primary_node))
    × ((http_client direct).is_ready primary_node
        ≡ (ok (is_ready serving_engine.state), primary_node))
    × ((http_client direct).node_status primary_node ≡ (ok (status_of primary_node), primary_node))
http_client_reads_example =
    http_client_reads lexical is_blank_character target direct-Delivers primary_node (codes "fox")
      10 stats (codes "fox" ∷ []) refl

http_client_writes_example :
    ((http_client direct).put_document third primary_node ≡ (
      relayed (write_document lexical target third (serving_engine, serving_engine ∷ [])).0,
      written lexical is_blank_character target direct-Delivers primary_node
          (write_document lexical target third (serving_engine, serving_engine ∷ [])),
    ))
    × ((http_client direct).delete_document third.document_id primary_node ≡ (
      relayed_delete
          (erase_document lexical target third.document_id (serving_engine, serving_engine ∷ [])).0,
      written lexical is_blank_character target direct-Delivers primary_node
          (erase_document lexical target third.document_id (serving_engine, serving_engine ∷ [])),
    ))
unfolding is_blank
http_client_writes_example =
    http_client_writes lexical is_blank_character target direct-Delivers primary_node third
      (serving_engine ∷ []) refl refl refl

replica_link-replica_node_example :
    ((replica_link direct).apply_put third 3 replica ≡ (
      (target.apply_put third 3 serving_engine).0,
      node_with (replica_of source) (target.apply_put third 3 serving_engine).1,
    ))
    × ((replica_link direct).apply_delete third.document_id 3 replica ≡ (
      (target.apply_delete third.document_id 3 serving_engine).0,
      node_with (replica_of source) (target.apply_delete third.document_id 3 serving_engine).1,
    ))
unfolding is_blank
replica_link-replica_node_example =
    replica_link-replica_node lexical is_blank_character target direct-Delivers replica source third
      3 refl refl refl refl

serve-Refuses_example : Refuses lexical is_blank_character target replica (
    serve lexical is_blank_character target
      (put_document_request third.document_id third.text)
      replica)
serve-Refuses_example =
    serve-Refuses lexical is_blank_character target replica
      (put_document_request third.document_id third.text) refl
