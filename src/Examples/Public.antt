-- ===== src/Examples/Public.antt =====
-- The public endpoints, run.
use pysearch.Base.{ℕ, ◌+◌, not, none, [], ◌∷◌, ◌≡◌, refl, All, member, put, ok, codes, length}
use pysearch.Document.{is_blank}
use pysearch.Float.{naturals, naturals-IsOrdered}
use pysearch.Engine.Effects.{Stores}
use pysearch.Cluster.Routing.{shard_for}
use pysearch.Cluster.Coordinator.{Coordinator, owner_of}
use pysearch.Cluster.Replicas.{Agrees}
use pysearch.Http.Internal.{primary_of}
use pysearch.Http.Client.{http_client}
use pysearch.Api.{index_request, lexical_request}
use pysearch.Api.Single.{serve_single}
use pysearch.Api.Clustered.{serve_cluster, placed_answer}
use pysearch.Api.Alike.{search-serve_single}
use pysearch.Api.Storing.{outcome, with_copies, put_stored}
use pysearch.Examples.{ascii, lexical, first_id, first_text, second_id, second_text, third}
use pysearch.Examples.Engines.{serving_engine}
use pysearch.Examples.Replicas.{one_engine, one_engine-Healthy}
use pysearch.Examples.Wires.{Nodes, is_blank_character, direct, direct-Delivers, node_with}
use pysearch.Examples.Parts.{coordinator, shards, serving_at-Serves, parts}

search-serve_single_example :
    serve_cluster coordinator is_blank_character (lexical_request (codes "red fox") none) tt ≡ (
      (serve_single lexical is_blank_character
          (lexical_request (codes "red fox") none)
          serving_engine).0,
      tt,
    )
search-serve_single_example =
    search-serve_single (Unit {0}) lexical is_blank_character naturals-IsOrdered coordinator
      (codes "red fox") none tt shards serving_engine refl refl
      (
        serving_at-Serves first_id first_text 0 10,
        (serving_at-Serves second_id second_text 1 10, tt),
      )
      parts

-- One shard, whose primary and replica are reached over HTTP.
abbrev wired : Coordinator Nodes naturals ℕ
wired = record {
  digest = length;
  unicode = ascii;
  router = record { shard_count = 1 };
  topology = record { shard_id = 0; primary = http_client direct; replicas = [] } ∷ [];
  embedder = none;
}

abbrev healthy_node : Nodes
healthy_node = node_with (primary_of (one_engine ∷ [])) one_engine

wired_owner : owner_of wired third.document_id ≡ ok (http_client direct)
unfolding owner_of shard_for
wired_owner = refl

put_stored_example :
    let after =
      (outcome lexical is_blank_character direct-Delivers third.document_id third.text healthy_node
        (one_engine ∷ [])).1 in
    (serve_cluster wired is_blank_character
        (index_request third.document_id third.text)
        healthy_node
      ≡ (
        placed_answer wired third.document_id
            (not (member third.document_id one_engine.store.rows)),
        with_copies lexical is_blank_character direct-Delivers healthy_node after.0 after.1,
      ))
    × Stores lexical one_engine after.0
        (put third.document_id third.text one_engine.store.rows)
        (one_engine.generation + 1)
    × All (Agrees lexical after.0) after.1
unfolding is_blank
put_stored_example =
    put_stored lexical is_blank_character direct-Delivers wired third.document_id third.text
      healthy_node (one_engine ∷ []) refl wired_owner refl refl refl one_engine-Healthy
      ((refl, refl, one_engine-Healthy), tt)
