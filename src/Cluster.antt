-- ===== src/Cluster.antt =====
-- app/cluster/topology.py, and the interface that app/cluster/client.py states for a copy of a
-- shard. A copy is another process: what a request does to the nodes is an action on the state `S`
-- of all of them, which the methods of a client are given with.
pub mod Routing
pub mod Coordinator
pub mod Gathering
pub mod Failover
pub mod Merging
pub mod Distributed
pub mod Whole
pub mod Status
pub mod Available
pub mod Figures
pub mod Hybrid
pub mod Similar
pub mod Ownership
pub mod Replication
pub mod Replicas
pub mod Synchronizing
pub mod Ahead
use pysearch.Base.{
  ℕ, zero, suc, ◌+◌, Str, Bool, true, false, not, ◌&&◌, Option, none, some, List, [], ◌∷◌, length,
  get_elem?, map, if◌then◌else◌, ◌==◌, ◌=ₛ◌, Error, Result, ok, err, and_then, raise_if, Exec,
  value_error, index_error,
}
use pysearch.Float.{Float}
use pysearch.Document.{Document}
use pysearch.Results.{SearchResults}
use pysearch.Index.{CorpusStats}
use pysearch.Ranking.{IndexStats}
use pysearch.Engine.{NodeState}

-- SemanticIdentity
pub record SemanticIdentity : Type 0 where
  pub implementation : Str
  pub model_id : Str
  pub model_revision : Str
  pub dimension : ℕ
  pub normalization : Str

-- is_compatible_with
abbrev pub is_compatible_with : SemanticIdentity → SemanticIdentity → Bool
is_compatible_with a b =
    a.implementation =ₛ b.implementation
    && a.model_id =ₛ b.model_id
    && a.model_revision =ₛ b.model_revision
    && a.dimension == b.dimension
    && a.normalization =ₛ b.normalization

-- NodeStatus
pub record NodeStatus : Type 0 where
  pub node_id : Str
  pub shard_id : ℕ
  pub replica_role : Str
  pub state : NodeState
  pub ready : Bool
  pub generation : ℕ

module _ (S : Type 0) (fl : Float) (V : Type 0) where
  -- ShardClient
  pub record ShardClient : Type 0 where
    pub put_document : Document → Exec S Bool
    pub delete_document : Str → Exec S (Unit {0})
    pub search : Str → ℕ → CorpusStats → Exec S (SearchResults fl.F)
    pub corpus_stats : List Str → Exec S CorpusStats
    pub semantic_search : V → ℕ → SemanticIdentity → Exec S (SearchResults fl.F)
    pub index_stats : Exec S (IndexStats fl)
    pub is_ready : Exec S Bool
    pub node_status : Exec S NodeStatus

  pub record ShardCopies : Type 0 where
    pub shard_id : ℕ
    pub primary : ShardClient
    pub replicas : List ShardClient

module _ {S : Type 0} {fl : Float} {V : Type 0} where
  -- Copies to try for reads: the primary, then the replicas.
  abbrev pub serving_order : ShardCopies S fl V → List (ShardClient S fl V)
  serving_order copies = copies.primary ∷ copies.replicas

  -- The check of `ClusterTopology.__post_init__`, from a position on.
  unfoldable pub check_positions : ℕ → List (ShardCopies S fl V) → Result (Unit {0})
  check_positions position [] = ok tt
  check_positions position (shard ∷ shards) =
      let rest = check_positions (position + 1) shards in
      and_then (raise_if (not (shard.shard_id == position)) value_error) (λ _. rest)

  -- ClusterTopology(shards): a topology is the list of its shards.
  unfoldable pub cluster_topology : List (ShardCopies S fl V) → Result (List (ShardCopies S fl V))
  cluster_topology shards = and_then (check_positions 0 shards) (λ _. ok shards)

  -- copies_for; `none` is the IndexError
  abbrev pub copies_for : List (ShardCopies S fl V) → ℕ → Option (ShardCopies S fl V)
  copies_for shards shard_id = get_elem? shards shard_id

  abbrev pub replication_factor : List (ShardCopies S fl V) → ℕ
  replication_factor [] = 1
  replication_factor (copies ∷ shards) = 1 + length copies.replicas

  abbrev pub group_at : List (List (ShardClient S fl V)) → ℕ → List (ShardClient S fl V)
  group_at [] shard_id = []
  group_at (group ∷ groups) zero = group
  group_at (group ∷ groups) (suc shard_id) = group_at groups shard_id

  abbrev pub assemble :
      List (List (ShardClient S fl V)) → ℕ → List (ShardClient S fl V) → List (ShardCopies S fl V)
  assemble replicas position [] = []
  assemble replicas position (primary ∷ primaries) =
      record { shard_id = position; primary = primary; replicas = group_at replicas position }
      ∷ assemble replicas (position + 1) primaries

  -- build_topology: no groups at all, or one for each primary
  unfoldable pub build_topology :
      List (ShardClient S fl V)
      → List (List (ShardClient S fl V))
      → Result (List (ShardCopies S fl V))
  build_topology primaries replicas =
      if not (length replicas == 0) && not (length replicas == length primaries)
      then err value_error
      else cluster_topology (assemble replicas 0 primaries)
