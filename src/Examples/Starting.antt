-- ===== src/Examples/Starting.antt =====
-- Starting a coordinator and a replica from their settings, run.
use pysearch.Base.{
  ℕ, ◌+◌, Str, true, none, some, [], ◌++◌, ◌≡◌, refl, All, ok, codes, length, contains, ◌=ₛ◌,
  concat_map, Distinct,
}
use pysearch.Document.{is_blank}
use pysearch.Float.{naturals}
use pysearch.Engine.{new_engine}
use pysearch.Engine.Rebuild.{initialize}
use pysearch.Cluster.Coordinator.{Coordinator}
use pysearch.Cluster.Ownership.{Starts}
use pysearch.Cluster.Replication.{PrimarySource}
use pysearch.Settings.{
  Settings, coordinator, shard, replica, shard_addresses, replica_addresses, configured_factor,
  make_settings, start_coordinator,
}
use pysearch.Settings.Assembled.{copies_at}
use pysearch.Settings.Starting.{start_coordinator-Starts}
use pysearch.Settings.Nodes.{Started, MayServe, engine_of, start_node, start_node-MayServe}
use pysearch.Examples.{ascii, numbers, lexical, stored}
use pysearch.Examples.Engines.{stored_ids-Distinct}
use pysearch.Examples.Clusters.{Client, lost_client}
use pysearch.Examples.Wires.{is_blank_character}

abbrev clustered : Settings
clustered = record {
  node_role = coordinator;
  shard_id = none;
  shard_count = 2;
  shard_urls = codes "http://a, http://b";
  replica_urls = codes "http://c;http://d";
  replica_role = none;
  primary_url = [];
}

clustered_accepted : make_settings is_blank_character clustered ≡ ok clustered
unfolding make_settings contains ◌=ₛ◌ is_blank
clustered_accepted = refl

abbrev client_of : Str → Client
client_of address = lost_client

start_coordinator-Starts_example :
    (c : Coordinator (Unit {0}) naturals ℕ) × (start_coordinator is_blank_character client_of length
        ascii none clustered
      ≡ ok c)
    × Starts length ascii 2 c.topology none c
    × (c.topology
        ≡ copies_at client_of 0
            (shard_addresses is_blank_character clustered)
            (replica_addresses is_blank_character clustered))
    × All
        (λ copies. length copies.replicas + 1 ≡ configured_factor is_blank_character clustered)
        c.topology
    × Distinct (
        shard_addresses is_blank_character clustered
        ++ concat_map (λ g. g) (replica_addresses is_blank_character clustered))
start_coordinator-Starts_example =
    start_coordinator-Starts is_blank_character client_of length ascii none clustered refl
      clustered_accepted

abbrev secondary : Settings
secondary = record {
  node_role = shard;
  shard_id = some 0;
  shard_count = 2;
  shard_urls = [];
  replica_urls = [];
  replica_role = some replica;
  primary_url = codes "http://a";
}

abbrev source_of : Str → PrimarySource
source_of address = record { generation = ok 2; exported = ok ([], 2) }

abbrev target_of : Str → Str
target_of address = address

start_node-MayServe_example :
    ((started : Started numbers Str)
      → start_node lexical is_blank_character target_of source_of (codes "n") none secondary stored
        ≡ ok started
      → MayServe lexical
          (source_of secondary.primary_url)
          true
          (initialize lexical (new_engine lexical stored)).1
          (engine_of started))
    × (lexical.embedder ≡ none
        → stored.faults ≡ []
        → (started : Started numbers Str) × (start_node lexical is_blank_character target_of
              source_of
              (codes "n")
              none
              secondary
              stored
            ≡ ok started))
start_node-MayServe_example =
    start_node-MayServe lexical is_blank_character target_of source_of (codes "n") none secondary
      stored stored_ids-Distinct
